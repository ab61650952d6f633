-- ===== src/Prelude/Json.antt =====
-- The values of the program's untyped dictionaries, with the reads that it makes of them.
use Prim.Native.String.{String}
use mathlib.Core.Bool.{Bool, true, false, not, ◌&&◌}
use helios_home.Prelude.Tests.{if◌then◌else◌, ◌==◌}
use helios_home.Prelude.Int.{ℤ, pos, negsuc}
use helios_home.Prelude.Text.{str_eq, truthy}
use helios_home.Prelude.Float.{Float, of_nat}

mutual
  pub data Json (W : Type 0) : Type 0 where
    null : Json W
    bool : Bool → Json W
    int : ℤ → Json W
    real : W → Json W
    text : String → Json W
    list : Items W → Json W
    dict : Fields W → Json W

  pub data Items (W : Type 0) : Type 0 where
    nil : Items W
    cons : Json W → Items W → Items W

  pub data Fields (W : Type 0) : Type 0 where
    end : Fields W
    field : String → Json W → Fields W → Fields W

module _ {W : Type 0} where
  -- `payload.get(key)`: a key that is missing reads as `None`.
  unfoldable pub get : Fields W → String → Json W
  get end key = null
  get (field k v rest) key = if str_eq k key then v else get rest key

  -- `payload[key] = value`: a key that is there keeps its place.
  unfoldable pub put : Fields W → String → Json W → Fields W
  put end key value = field key value end
  put (field k v rest) key value =
      if str_eq k key then field k value rest else field k v (put rest key value)

  -- `payload.update(other)`
  unfoldable pub update : Fields W → Fields W → Fields W
  unfolding put
  update d end = d
  update d (field k v rest) = update (put d k v) rest

  -- `payload or {}` of a value that may be missing, and `payload if isinstance(payload, dict) else {}`
  abbrev pub fields_or_empty : Json W → Fields W
  fields_or_empty (dict d) = d
  fields_or_empty _ = end

module _ {W : Type 0} ⦃fl : Float W⦄ where
  abbrev pub is_zero : W → Bool
  is_zero x = fl.le x (of_nat 0) && fl.le (of_nat 0) x

  -- `bool(value)`
  unfoldable pub as_bool : Json W → Bool
  as_bool null = false
  as_bool (bool b) = b
  as_bool (int (pos n)) = not (n == 0)
  as_bool (int (negsuc n)) = true
  as_bool (real x) = not (is_zero x)
  as_bool (text s) = truthy s
  as_bool (list nil) = false
  as_bool (list _) = true
  as_bool (dict end) = false
  as_bool (dict _) = true

-- `str(value)` of a value that is neither text nor `None` nor a truth value.
pub record Repr (W : Type 0) : Type 0 where
  pub repr : Json W → String

-- `str(value)`
module _ {W : Type 0} ⦃r : Repr W⦄ where
  abbrev pub as_text : Json W → String
  as_text (text s) = s
  as_text null = "None"
  as_text (bool true) = "True"
  as_text (bool false) = "False"
  as_text other = r.repr other

module _ {W : Type 0} where
  -- `payload.get(key, default)`
  unfoldable pub get_or : Fields W → String → Json W → Json W
  get_or end key default = default
  get_or (field k v rest) key default = if str_eq k key then v else get_or rest key default

-- `value or other`
module _ {W : Type 0} ⦃fl : Float W⦄ where
  abbrev pub or_else : Json W → Json W → Json W
  or_else a b = if as_bool a then a else b
