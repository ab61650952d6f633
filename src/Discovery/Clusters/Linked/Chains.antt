-- ===== src/Discovery/Clusters/Linked/Chains.antt =====
-- Chains of candidates that share keys.
use helios_home.Prelude.{
  ◌≡◌, refl, sym, subst, String, true, List, [], ◌∷◌, ◌++◌, str_eq, str_eq_refl, one_of, Bool-cases,
  inl, inr, arith,
}
use mathlib.Core.List.{Memᴰ}
use helios_home.Prelude.Json.{Repr}
use helios_home.Discovery.{RawCandidate}
use helios_home.Discovery.Identity.{add_keys, candidate_identity_keys}
use helios_home.Discovery.Clusters.{meets}
use helios_home.Discovery.Clusters.Apart.Keys.{one_of-add_keys, one_of-same}

module _ {W : Type 0} ⦃r : Repr W⦄ where
  -- The two candidates are linked through the list.
  pub data Linked (ms : List (RawCandidate W)) : RawCandidate W → RawCandidate W → Type 0 where
    same : {c : RawCandidate W} → Linked ms c c
    shares :
        {c d : RawCandidate W}
        → Memᴰ c ms
        → Memᴰ d ms
        → meets (candidate_identity_keys c) (candidate_identity_keys d) ≡ true
        → Linked ms c d
    back : {c d : RawCandidate W} → Linked ms c d → Linked ms d c
    onward : {c d e : RawCandidate W} → Linked ms c d → Linked ms d e → Linked ms c e

  abbrev pub AllLinked : List (RawCandidate W) → RawCandidate W → List (RawCandidate W) → Type 0
  AllLinked ms c [] = Unit
  AllLinked ms c (e ∷ es) = Linked ms c e × AllLinked ms c es

  -- Some candidate of the list has the key.
  abbrev pub Owner : List (RawCandidate W) → String → Type 0
  Owner ms k = (c : RawCandidate W) × Memᴰ c ms × (one_of k (candidate_identity_keys c) ≡ true)

  abbrev pub Owned : List (RawCandidate W) → List String → Type 0
  Owned ms ks = (k : String) → one_of k ks ≡ true → Owner ms k

  pub mem_left :
      (c : RawCandidate W) (xs ys : List (RawCandidate W)) → Memᴰ c xs → Memᴰ c (xs ++ ys)
  mem_left c [] ys h = elim h [ ]
  mem_left c (x ∷ xs) ys (Memᴰ.head p) = Memᴰ.head p
  mem_left c (x ∷ xs) ys (Memᴰ.tail h) = Memᴰ.tail (mem_left c xs ys h)

  pub mem_right :
      (c : RawCandidate W) (xs ys : List (RawCandidate W)) → Memᴰ c ys → Memᴰ c (xs ++ ys)
  mem_right c [] ys h = h
  mem_right c (x ∷ xs) ys h = Memᴰ.tail (mem_right c xs ys h)

  abbrev Sub : List (RawCandidate W) → List (RawCandidate W) → Type 0
  Sub ms ns = (c : RawCandidate W) → Memᴰ c ms → Memᴰ c ns

  Linked-mono :
      (ms ns : List (RawCandidate W)) {c d : RawCandidate W}
      → Sub ms ns
      → Linked ms c d
      → Linked ns c d
  Linked-mono ms ns h same = same
  Linked-mono ms ns h (shares {c} {d} p q e) = shares (h c p) (h d q) e
  Linked-mono ms ns h (back l) = back (Linked-mono ms ns h l)
  Linked-mono ms ns h (onward l m) = onward (Linked-mono ms ns h l) (Linked-mono ms ns h m)

  Linked-member :
      (ms es : List (RawCandidate W)) (c e : RawCandidate W)
      → AllLinked ms c es
      → Memᴰ e es
      → Linked ms c e
  Linked-member ms [] c e h k = elim k [ ]
  Linked-member ms (x ∷ es) c e (near, far) (Memᴰ.head p) = subst (Linked ms c) (sym p) near
  Linked-member ms (x ∷ es) c e (near, far) (Memᴰ.tail h) = Linked-member ms es c e far h

  -- What is linked to `g` is linked to what `g` is linked to.
  all_onward :
      (ms ns es : List (RawCandidate W)) (f g : RawCandidate W)
      → Sub ms ns
      → Linked ns f g
      → AllLinked ms g es
      → AllLinked ns f es
  all_onward ms ns [] f g h l k = tt
  all_onward ms ns (e ∷ es) f g h l (near, far) =
      (onward l (Linked-mono ms ns h near), all_onward ms ns es f g h l far)

  all_append :
      (ms xs ys : List (RawCandidate W)) (f : RawCandidate W)
      → AllLinked ms f xs
      → AllLinked ms f ys
      → AllLinked ms f (xs ++ ys)
  all_append ms [] ys f h k = k
  all_append ms (x ∷ xs) ys f (near, far) k = (near, all_append ms xs ys f far k)

  owned_joined :
      (ms ns : List (RawCandidate W)) (a b : List String)
      → Owned ms a
      → Owned ns b
      → Owned (ms ++ ns) (add_keys a b)
  owned_joined ms ns a b h k key there = elim (Bool-cases (one_of key a)) [
    | inl in_a ↦ let (c, m, o) = h key in_a in (c, mem_left c ms ns m, o)
    | inr out ↦
        let (c, m, o) = k key (ground (arith, one_of-add_keys key a b, out, there)) in
        (c, mem_right c ms ns m, o)
  ]

  -- Two linked lists are linked when a member of one shares a key with a member of the other.
  pub joined :
      (f g m n : RawCandidate W) (ms ns : List (RawCandidate W)) (a b : List String)
      → AllLinked ms f ms × Owned ms a
      → AllLinked ns g ns × Owned ns b
      → Memᴰ m ms
      → Memᴰ n ns
      → meets (candidate_identity_keys m) (candidate_identity_keys n) ≡ true
      → AllLinked (ms ++ ns) f (ms ++ ns) × Owned (ms ++ ns) (add_keys a b)
  joined f g m n ms ns a b (link, own) (link', own') in_m in_n shared =
      let left : Sub ms (ms ++ ns) = λ c. mem_left c ms ns in
      let right : Sub ns (ms ++ ns) = λ c. mem_right c ms ns in
      let to_m = Linked-mono ms (ms ++ ns) left (Linked-member ms ms f m link in_m) in
      let to_n = Linked-mono ns (ms ++ ns) right (Linked-member ns ns g n link' in_n) in
      let bridge : Linked (ms ++ ns) f g =
        onward to_m (onward (shares (left m in_m) (right n in_n) shared) (back to_n)) in
      (
        all_append (ms ++ ns) ms ns f (all_onward ms (ms ++ ns) ms f f left same link)
            (all_onward ns (ms ++ ns) ns f g right bridge link'),
        owned_joined ms ns a b own own',
      )

  pub single_owned : (c : RawCandidate W) → Owned (c ∷ []) (candidate_identity_keys c)
  single_owned c k h = (c, Memᴰ.head refl, h)

-- The key that two sets have in common.
pub meets_common :
    (a b : List String)
    → meets a b ≡ true
    → (k : String) × (one_of k a ≡ true) × (one_of k b ≡ true)
meets_common [] b h = absurd (ground (arith, h))
meets_common (x ∷ a) b h = elim (Bool-cases (one_of x b)) [
  | inl in_b ↦ (x, ground (arith, str_eq_refl x), in_b)
  | inr out ↦
      let (k, in_a, in_b) = meets_common a b (ground (arith, h, out)) in
      (k, ground (arith, in_a), in_b)
]

pub common_meets :
    (k : String) (a b : List String) → one_of k a ≡ true → one_of k b ≡ true → meets a b ≡ true
common_meets k [] b h l = h
common_meets k (x ∷ a) b h l = elim (Bool-cases (str_eq k x)) [
  | inl equal ↦ ground (arith, one_of-same k x b equal, l)
  | inr other ↦ ground (arith, common_meets k a b (ground (arith, h, other)) l)
]

module _ {W : Type 0} ⦃r : Repr W⦄ where
  -- A member has a key of the candidate, when the keys of the members do.
  pub meets_owner :
      (c : RawCandidate W) (ms : List (RawCandidate W)) (ks : List String)
      → Owned ms ks
      → meets (candidate_identity_keys c) ks ≡ true
      → (n : RawCandidate W) × Memᴰ n ms
        × (meets (candidate_identity_keys c) (candidate_identity_keys n) ≡ true)
        × (meets (candidate_identity_keys n) (candidate_identity_keys c) ≡ true)
  meets_owner c ms ks own meet =
      let (k, in_c, in_ks) = meets_common (candidate_identity_keys c) ks meet in
      let (n, in_ms, in_n) = own k in_ks in
      (
        n,
        in_ms,
        common_meets k (candidate_identity_keys c) (candidate_identity_keys n) in_c in_n,
        common_meets k (candidate_identity_keys n) (candidate_identity_keys c) in_n in_c,
      )
