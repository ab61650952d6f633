-- ===== src/Discovery/Identity.antt =====
-- services/candidate_reconciliation.py: the keys by which two candidates are the same device. A set of
-- texts is the list of its members in the order in which they were added, each once.
pub mod Normal
use Prim.Native.Char.{Char, code}
use helios_home.Prelude.{
  ℕ, zero, suc, ◌+◌, String, Bool, true, false, not, ◌&&◌, ◌||◌, List, [], ◌∷◌, ◌++◌, leb, ◌==◌,
  if◌then◌else◌, str_eq, one_of, truthy, strip, lower, formatted,
}
use helios_home.Prelude.Json.{
  Json, Items, Fields, nil, cons, null, text, list, get, get_or, Repr, as_text,
}
use helios_home.Discovery.{RawCandidate}

abbrev within : ℕ → ℕ → Char → Bool
within low high c = leb low (code c) && leb (code c) high

-- `c.isalnum()`
abbrev is_alnum : Char → Bool
is_alnum c = within 48 57 c || within 65 90 c || within 97 122 c

abbrev pub is_dash : Char → Bool
is_dash c = code c == 45

-- Lower case, with a dash in the place of what is no letter and no digit.
unfoldable pub dashed : String → String
dashed String.[] = String.[]
dashed (String.◌∷◌ c s) =
    let rest = dashed s in if is_alnum c then String.◌∷◌ c rest else String.◌∷◌ "-" rest

-- `s.strip("-")`
unfoldable pub lstrip_dash : String → String
lstrip_dash String.[] = String.[]
lstrip_dash (String.◌∷◌ c s) =
    let rest = lstrip_dash s in if is_dash c then rest else String.◌∷◌ c s

unfoldable pub rstrip_dash : String → String
rstrip_dash String.[] = String.[]
rstrip_dash (String.◌∷◌ c s) =
    let rest = rstrip_dash s in
    if is_dash c && not (truthy rest) then String.[] else String.◌∷◌ c rest

-- `"--" in text`; `before` tells that a dash stands before the text.
unfoldable pub has_double : Bool → String → Bool
has_double before String.[] = false
has_double before (String.◌∷◌ c s) =
    let rest = has_double (is_dash c) s in if is_dash c then before || rest else rest

-- `text.replace("--", "-")`; `pending` tells that a dash was read and not yet written.
unfoldable pub replaced : Bool → String → String
replaced true String.[] = "-"
replaced false String.[] = ""
replaced true (String.◌∷◌ c s) =
    let rest = replaced false s in
    if is_dash c then String.◌∷◌ "-" rest else String.◌∷◌ "-" (String.◌∷◌ c rest)
replaced false (String.◌∷◌ c s) =
    let rest = replaced (is_dash c) s in if is_dash c then rest else String.◌∷◌ c rest

abbrev pub size : String → ℕ
size String.[] = 0
size (String.◌∷◌ c s) = suc (size s)

-- The `while` loop, on fuel.
unfoldable pub single_dashes : ℕ → String → String
unfolding has_double replaced
single_dashes zero s = s
single_dashes (suc fuel) s =
    let rest = single_dashes fuel (replaced false s) in if has_double false s then rest else s

-- `_normalize_text`
unfoldable pub normalize_text : String → String
unfolding dashed lstrip_dash rstrip_dash single_dashes strip lower
normalize_text value =
    let stripped = rstrip_dash (lstrip_dash (lower (dashed (strip value)))) in
    single_dashes (size stripped) stripped

-- `_normalize_mac`, of the text in lower case
unfoldable pub alnum : String → String
alnum String.[] = String.[]
alnum (String.◌∷◌ c s) = let rest = alnum s in if is_alnum c then String.◌∷◌ c rest else rest

unfoldable pub normalize_mac : String → String
unfolding alnum lower
normalize_mac value = alnum (lower value)

unfoldable pub add_key : String → List String → List String
add_key key keys = if one_of key keys then keys else keys ++ key ∷ []

unfoldable pub add_keys : List String → List String → List String
unfolding add_key
add_keys keys [] = keys
add_keys keys (k ∷ ks) = add_keys (add_key k keys) ks

module _ {W : Type 0} where
  -- `_evidence_list`
  unfoldable pub evidence_list : Fields W → String → List (Json W)
  unfolding get
  evidence_list evidence key = listed (get evidence key)
    where
      items : Items W → List (Json W)
      items nil = []
      items (cons v vs) = v ∷ items vs

      listed : Json W → List (Json W)
      listed (list vs) = items vs
      listed null = []
      listed v = v ∷ []

  unfoldable pub raw_keys : List (Json W) → List String
  unfolding strip lower
  raw_keys [] = []
  raw_keys (text key ∷ values) =
      let rest = raw_keys values in if truthy (strip key) then lower (strip key) ∷ rest else rest
  raw_keys (_ ∷ values) = raw_keys values

abbrev slug_keys : String → List String
slug_keys slug =
    if truthy slug then formatted ("mqtt-slug:" ∷ normalize_text slug ∷ []) ∷ [] else []

module _ {W : Type 0} ⦃r : Repr W⦄ where
  unfoldable pub mac_keys : List (Json W) → List String
  unfolding normalize_mac
  mac_keys [] = []
  mac_keys (value ∷ values) =
      let rest = mac_keys values in
      let mac = normalize_mac (as_text value) in
      if truthy mac then formatted ("mac:" ∷ mac ∷ []) ∷ rest else rest

  -- `_candidate_identity_keys`
  unfoldable pub candidate_identity_keys : RawCandidate W → List String
  unfolding evidence_list raw_keys mac_keys normalize_text formatted strip get_or add_keys
  candidate_identity_keys candidate =
      let evidence = candidate.evidence in
      add_keys [] (
        raw_keys (evidence_list evidence "identity_keys")
        ++ (mac_keys (evidence_list evidence "network_macs")
            ++ slug_keys (strip (as_text (get_or evidence "mqtt_device_slug" (text ""))))))
