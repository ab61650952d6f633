-- ===== src/Discovery/Clusters/Apart/Keys.antt =====
-- Sets of keys that have no key in common.
use helios_home.Prelude.{
  ◌≡◌, refl, sym, ap, String, true, false, ◌||◌, List, [], ◌∷◌, ◌++◌, str_eq, one_of, eq_iff,
  str_eq_refl, Bool-cases, inl, inr, arith,
}
use helios_home.Discovery.Identity.{add_key, add_keys}
use helios_home.Discovery.Clusters.{meets}

abbrev pub Apart : List String → List String → Type 0
Apart a b = (k : String) → one_of k a ≡ true → one_of k b ≡ false

pub Apart-sym : (a b : List String) → Apart a b → Apart b a
Apart-sym a b h k in_b = elim (Bool-cases (one_of k a)) [
  | inl in_a ↦ absurd (ground (arith, h k in_a, in_b))
  | inr out ↦ out
]

one_of_append : (k : String) (a b : List String) → one_of k (a ++ b) ≡ one_of k a || one_of k b
one_of_append k [] b = refl
one_of_append k (x ∷ a) b = elim (Bool-cases (str_eq k x)) [
  | inl same ↦ rw same refl
  | inr other ↦ rw other (one_of_append k a b)
]

-- Equal texts are members alike.
pub one_of-same : (k x : String) (a : List String) → str_eq k x ≡ true → one_of x a ≡ one_of k a
one_of-same k x a same = ap (λ u. one_of u a) (sym ((eq_iff k x).0 same))

pub one_of-add_key :
    (k x : String) (a : List String) → one_of k (add_key x a) ≡ one_of k a || str_eq k x
unfolding add_key
one_of-add_key k x a = elim (Bool-cases (one_of x a)) [
  | inl there ↦ rw there (elim (Bool-cases (str_eq k x)) [
    | inl same ↦ ground (arith, same, there, one_of-same k x a same)
    | inr other ↦ ground (arith, other)
  ])
  | inr new ↦ rw new (ground (arith, one_of_append k a (x ∷ [])))
]

pub one_of-add_keys :
    (k : String) (a b : List String) → one_of k (add_keys a b) ≡ one_of k a || one_of k b
unfolding add_keys
one_of-add_keys k a [] = ground arith
one_of-add_keys k a (x ∷ b) =
    ground (arith, one_of-add_keys k (add_key x a) b, one_of-add_key k x a)

pub meets-Apart : (a b : List String) → meets a b ≡ false → Apart a b
meets-Apart [] b h k in_a = absurd (ground (arith, in_a))
meets-Apart (x ∷ a) b h k in_a = elim (Bool-cases (str_eq k x)) [
  | inl same ↦ ground (arith, h, one_of-same k x b same)
  | inr other ↦ meets-Apart a b (ground (arith, h)) k (ground (arith, in_a, other))
]

pub Apart-meets : (a b : List String) → Apart a b → meets a b ≡ false
Apart-meets [] b h = refl
Apart-meets (x ∷ a) b h =
    let new : one_of x b ≡ false = h x (ground (arith, str_eq_refl x)) in
    let rest : meets a b ≡ false = Apart-meets a b (λ k in_a. h k (ground (arith, in_a))) in
    ground (arith, new, rest)

pub Apart-add_keys : (ks a b : List String) → Apart ks a → Apart ks b → Apart ks (add_keys a b)
Apart-add_keys ks a b h h' k there = ground (arith, one_of-add_keys k a b, h k there, h' k there)
