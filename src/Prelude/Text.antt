-- ===== src/Prelude/Text.antt =====
-- Texts as the program compares them, and the methods of `str` that it calls, on ASCII text.
use Prim.Native.Char.{Char, code}
use Prim.Native.String.{String}
use Prim.Native.String.{◌++◌ as append}
use mathlib.Core.Bool.{Bool, true, false, ◌||◌, ◌&&◌, not}
use mathlib.Core.List.{List, [], ◌∷◌}
use mathlib.Core.Path.{◌≡◌, refl}
use native.Mathlib.Omega.{arith}
use text.Mathlib.Text.{◌==◌}
use text.Mathlib.TextEquality.{eq_iff}
use helios_home.Prelude.Tests.{leb, if◌then◌else◌}
use helios_home.Prelude.Tests.{◌==◌ as nat_eq}

abbrev pub str_eq : String → String → Bool
str_eq a b = a == b

-- The text of an f-string, by its parts.
unfoldable pub formatted : List String → String
formatted [] = ""
formatted (part ∷ parts) = append part (formatted parts)

-- `value in {...}`
abbrev pub one_of : String → List String → Bool
one_of s [] = false
one_of s (t ∷ ts) = str_eq s t || one_of s ts

-- The truth value of a text: not empty.
abbrev pub truthy : String → Bool
truthy String.[] = false
truthy (String.◌∷◌ c s) = true

abbrev is_space : Char → Bool
is_space c = (leb 9 (code c) && leb (code c) 13) || (leb 28 (code c) && leb (code c) 32)

unfoldable pub lstrip : String → String
lstrip String.[] = String.[]
lstrip (String.◌∷◌ c s) = let rest = lstrip s in if is_space c then rest else String.◌∷◌ c s

unfoldable pub rstrip : String → String
rstrip String.[] = String.[]
rstrip (String.◌∷◌ c s) =
    let rest = rstrip s in if is_space c && not (truthy rest) then String.[] else String.◌∷◌ c rest

-- `s.strip()`
unfoldable pub strip : String → String
unfolding lstrip rstrip
strip s = rstrip (lstrip s)

-- The letter that stands in the second text where `c` stands in the first.
letter_at : String → String → Char → Char
letter_at (String.◌∷◌ u us) (String.◌∷◌ l ls) c =
    if nat_eq (code u) (code c) then l else letter_at us ls c
letter_at _ _ c = c

-- `s.lower()`
unfoldable pub lower : String → String
unfolding letter_at
lower String.[] = String.[]
lower (String.◌∷◌ c s) =
    String.◌∷◌ (letter_at "ABCDEFGHIJKLMNOPQRSTUVWXYZ" "abcdefghijklmnopqrstuvwxyz" c) (lower s)

pub str_eq_refl : (s : String) → str_eq s s ≡ true
str_eq_refl s = (eq_iff s s).1 refl

pub str_eq_comm : (s t : String) → str_eq s t ≡ str_eq t s
str_eq_comm s t = ground (arith, eq_iff s t, eq_iff t s)
