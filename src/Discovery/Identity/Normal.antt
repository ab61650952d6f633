-- ===== src/Discovery/Identity/Normal.antt =====
-- The loop of `_normalize_text` ends.
use helios_home.Prelude.{
  lower, strip, ℕ, zero, suc, ◌+◌, ◌≤◌, ◌<◌, ◌≡◌, refl, String, Bool, true, false, Bool-cases, inl,
  inr, arith,
}
use helios_home.Discovery.Identity.{
  is_dash, has_double, replaced, size, single_dashes, normalize_text, dashed, lstrip_dash,
  rstrip_dash,
}

abbrev bit : Bool → ℕ
bit true = 1
bit false = 0

size-replaced : (pending : Bool) (s : String) → size (replaced pending s) ≤ size s + bit pending
unfolding replaced
size-replaced true String.[] = omega arith
size-replaced false String.[] = omega arith
size-replaced true (String.◌∷◌ c s) = elim (Bool-cases (is_dash c)) [
  | inl dash ↦ rw dash (omega (arith, size-replaced false s))
  | inr plain ↦ rw plain (omega (arith, size-replaced false s))
]
size-replaced false (String.◌∷◌ c s) = elim (Bool-cases (is_dash c)) [
  | inl dash ↦ rw dash (omega (arith, size-replaced true s))
  | inr plain ↦ rw plain (omega (arith, size-replaced false s))
]

-- Where two dashes are replaced the text becomes shorter.
size-replaced_lt :
    (pending : Bool) (s : String)
    → has_double pending s ≡ true
    → size (replaced pending s) < size s + bit pending
unfolding replaced has_double
size-replaced_lt pending String.[] h = absurd (ground (arith, h))
size-replaced_lt true (String.◌∷◌ c s) h = elim (Bool-cases (is_dash c)) [
  | inl dash ↦ rw dash (omega (arith, size-replaced false s))
  | inr plain ↦
      let later : has_double false s ≡ true = ground (arith, h, plain) in
      rw plain (omega (arith, size-replaced_lt false s later))
]
size-replaced_lt false (String.◌∷◌ c s) h = elim (Bool-cases (is_dash c)) [
  | inl dash ↦
      let later : has_double true s ≡ true = ground (arith, h, dash) in
      rw dash (omega (arith, size-replaced_lt true s later))
  | inr plain ↦
      let later : has_double false s ≡ true = ground (arith, h, plain) in
      rw plain (omega (arith, size-replaced_lt false s later))
]

single_dashes_lem :
    (fuel : ℕ) (s : String) → size s ≤ fuel → has_double false (single_dashes fuel s) ≡ false
unfolding single_dashes
single_dashes_lem zero String.[] h = refl
single_dashes_lem zero (String.◌∷◌ c s) h = absurd (omega arith)
single_dashes_lem (suc fuel) s h = elim (Bool-cases (has_double false s)) [
  | inl double ↦
      rw double
        (single_dashes_lem fuel (replaced false s) (omega (arith, size-replaced_lt false s double)))
  | inr single ↦ rw single single
]

-- The loop of `_normalize_text` needs no more rounds than the text has characters, and leaves no two
-- dashes next to each other.
pub normalize_text_lem : (value : String) → has_double false (normalize_text value) ≡ false
unfolding normalize_text
normalize_text_lem value =
    let stripped = rstrip_dash (lstrip_dash (lower (dashed (strip value)))) in
    single_dashes_lem (size stripped) stripped (omega arith)
