-- ===== src/Prelude/Sort.antt =====
-- `sorted(items, key=...)`: a stable sort by a test `le`.
use mathlib.Core.Path.{◌≡◌}
use mathlib.Core.Bool.{Bool, true, false}
use mathlib.Core.Logic.{inl, inr}
use mathlib.Core.List.{List, [], ◌∷◌, Perm}
use mathlib.Core.List.Perm
use helios_home.Prelude.Tests.{if◌then◌else◌, Bool-cases}

module _ {ℓ} {A : Type ℓ} (le : A → A → Bool) where
  unfoldable pub insert_by : A → List A → List A
  insert_by a [] = a ∷ []
  insert_by a (b ∷ bs) = if le a b then a ∷ b ∷ bs else b ∷ insert_by a bs

  unfoldable pub sort_by : List A → List A
  unfolding insert_by
  sort_by [] = []
  sort_by (a ∷ as') = insert_by a (sort_by as')

  abbrev pub IsBelow : A → List A → Type 0
  IsBelow a [] = Unit
  IsBelow a (b ∷ bs) = (le a b ≡ true) × IsBelow a bs

  abbrev pub IsSortedBy : List A → Type 0
  IsSortedBy [] = Unit
  IsSortedBy (a ∷ rest) = IsBelow a rest × IsSortedBy rest

  insert_by-perm : (a : A) (l : List A) → Perm (insert_by a l) (a ∷ l)
  unfolding insert_by
  insert_by-perm a [] = Perm.refl _
  insert_by-perm a (b ∷ bs) = elim (Bool-cases (le a b)) [
    | inl yes_le ↦ rw yes_le (Perm.refl _)
    | inr not_le ↦ rw not_le (Perm.trans (Perm.cons b (insert_by-perm a bs)) (Perm.swap a b bs))
  ]

  -- Sorting loses and adds nothing.
  pub sort_by-perm : (l : List A) → Perm (sort_by l) l
  unfolding sort_by
  sort_by-perm [] = Perm.refl _
  sort_by-perm (a ∷ l) = Perm.trans (insert_by-perm a (sort_by l)) (Perm.cons a (sort_by-perm l))

  module _ (trans : (a b c : A) → le a b ≡ true → le b c ≡ true → le a c ≡ true)
      (total : (a b : A) → le a b ≡ false → le b a ≡ true) where
    IsBelow-weaken : (a b : A) (l : List A) → le a b ≡ true → IsBelow b l → IsBelow a l
    IsBelow-weaken a b [] h k = tt
    IsBelow-weaken a b (c ∷ l) h k = (trans a b c h k.0, IsBelow-weaken a b l h k.1)

    insert_by-IsBelow :
        (a b : A) (l : List A) → le b a ≡ true → IsBelow b l → IsBelow b (insert_by a l)
    unfolding insert_by
    insert_by-IsBelow a b [] h k = (h, tt)
    insert_by-IsBelow a b (c ∷ l) h k = elim (Bool-cases (le a c)) [
      | inl le_c ↦ rw le_c (h, k)
      | inr gt_c ↦ rw gt_c (k.0, insert_by-IsBelow a b l h k.1)
    ]

    insert_by-IsSortedBy : (a : A) (l : List A) → IsSortedBy l → IsSortedBy (insert_by a l)
    unfolding insert_by
    insert_by-IsSortedBy a [] h = (tt, tt)
    insert_by-IsSortedBy a (b ∷ l) h = elim (Bool-cases (le a b)) [
      | inl le_b ↦ rw le_b ((le_b, IsBelow-weaken a b l le_b h.0), h)
      | inr gt_b ↦
          rw gt_b (insert_by-IsBelow a b l (total a b gt_b) h.0, insert_by-IsSortedBy a l h.1)
    ]

    pub sort_by-IsSortedBy : (l : List A) → IsSortedBy (sort_by l)
    unfolding sort_by
    sort_by-IsSortedBy [] = tt
    sort_by-IsSortedBy (a ∷ l) = insert_by-IsSortedBy a (sort_by l) (sort_by-IsSortedBy l)
