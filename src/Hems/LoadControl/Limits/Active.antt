-- ===== src/Hems/LoadControl/Limits/Active.antt =====
-- What active_load_control_limits returns: per key the newest limit that has not expired.
use mathlib.Core.List.{Mem, Memᴰ}
use mathlib.Core.List.Perm
use mathlib.Core.List.Memᴰ
use mathlib.Core.Logic.{∥∥₁_elim}
use helios_home.Prelude.{
  ℕ, ◌≡◌, refl, ap, Bool, true, false, ◌&&◌, ◌||◌, List, [], ◌∷◌, arith, Bool-cases, inl, inr, leb,
  ◌==◌, str_eq, str_eq_refl, sym, ◌∙◌,
}
use helios_home.Prelude.Sort.{IsBelow, IsSortedBy, sort_by-perm, sort_by-IsSortedBy}
use helios_home.Hems.LoadControl.{Limit}
use helios_home.Hems.LoadControl.Limits.{
  is_expired, same_key, seen, split_active, candidates, newest_first, active_load_control_limits,
}

module _ {W : Type 0} where
  -- Some row has the key and was not received earlier.
  abbrev pub covered : Limit W → List (Limit W) → Bool
  covered row [] = false
  covered row (kept ∷ rest) =
      (same_key kept row && leb row.received_at kept.received_at) || covered row rest

  -- Each row is unexpired and its key is not among the keys before it.
  abbrev pub AreCurrent : ℕ → List (Limit W) → List (Limit W) → Type 0
  AreCurrent now before [] = Unit
  AreCurrent now before (row ∷ rows) =
      (is_expired now row ≡ false) × (seen row before ≡ false) × AreCurrent now (row ∷ before) rows

  abbrev newer : Limit W → Limit W → Bool
  newer a b = leb b.received_at a.received_at

  same_key_refl : (row : Limit W) → same_key row row ≡ true
  same_key_refl row =
      let u : str_eq row.use_case row.use_case ≡ true = str_eq_refl _ in
      let p : str_eq row.peer_ski row.peer_ski ≡ true = str_eq_refl _ in
      let l : (row.limit_id == row.limit_id) ≡ true = ground arith in rw u (rw p (rw l refl))

  IsBelow-Memᴰ :
      (a b : Limit W) (l : List (Limit W)) → IsBelow newer a l → Memᴰ b l → newer a b ≡ true
  IsBelow-Memᴰ a b [] h m = absurd (Memᴰ.not-nil m)
  IsBelow-Memᴰ a b (c ∷ l) h (Memᴰ.head e) = rw e h.0
  IsBelow-Memᴰ a b (c ∷ l) h (Memᴰ.tail m) = IsBelow-Memᴰ a b l h.1 m

  split_active-AreCurrent :
      (now : ℕ) (kept rows : List (Limit W)) → AreCurrent now kept (split_active now kept rows).0
  unfolding split_active
  split_active-AreCurrent now kept [] = tt
  split_active-AreCurrent now kept (row ∷ rows) = elim (Bool-cases (is_expired now row)) [
    | inl old ↦ rw old (split_active-AreCurrent now kept rows)
    | inr valid ↦ elim (Bool-cases (seen row kept)) [
      | inl twice ↦ rw valid (rw twice (split_active-AreCurrent now kept rows))
      | inr first ↦
          rw valid (rw first (valid, first, split_active-AreCurrent now (row ∷ kept) rows))
    ]
  ]

  covered-tail :
      (row other : Limit W) (rows : List (Limit W))
      → covered row rows ≡ true
      → covered row (other ∷ rows) ≡ true
  covered-tail row other rows h = rw h (ground arith)

  split_active-covered :
      (now : ℕ) (kept rows : List (Limit W)) (row : Limit W)
      → IsSortedBy newer rows
      → Memᴰ row rows
      → is_expired now row ≡ false
      → seen row kept ≡ false
      → covered row (split_active now kept rows).0 ≡ true
  unfolding split_active seen
  split_active-covered now kept [] row sorted m valid new = absurd (Memᴰ.not-nil m)
  split_active-covered now kept (r ∷ rows) row sorted (Memᴰ.head e) valid new =
      let valid' : is_expired now r ≡ false = ap (is_expired now) (sym e) ∙ valid in
      let new' : seen r kept ≡ false = ap (λ x. seen x kept) (sym e) ∙ new in
      let key : same_key r row ≡ true = rw e (same_key_refl r) in
      let at : leb row.received_at r.received_at ≡ true = rw e (ground arith) in
      rw valid' (rw new' (rw key (rw at refl)))
  split_active-covered now kept (r ∷ rows) row sorted (Memᴰ.tail m) valid new =
      elim (Bool-cases (is_expired now r)) [
        | inl old ↦ rw old (split_active-covered now kept rows row sorted.1 m valid new)
        | inr valid_r ↦ elim (Bool-cases (seen r kept)) [
          | inl twice ↦
              rw valid_r (rw twice (split_active-covered now kept rows row sorted.1 m valid new))
          | inr first ↦ rw valid_r (
              rw first (elim (Bool-cases (same_key r row)) [
                | inl key ↦ rw key (rw (IsBelow-Memᴰ r row rows sorted.0 m) refl)
                | inr other ↦
                    rw other
                      (split_active-covered now (r ∷ kept) rows row sorted.1 m valid (rw other new))
              ]))
        ]
      ]

  candidates-Memᴰ :
      (site_id : ℕ) (row : Limit W) (limits : List (Limit W))
      → row.site_id ≡ site_id
      → row.is_active ≡ true
      → Memᴰ row limits
      → Memᴰ row (candidates site_id limits)
  unfolding candidates
  candidates-Memᴰ site_id row [] site on m = absurd (Memᴰ.not-nil m)
  candidates-Memᴰ site_id row (r ∷ rows) site on (Memᴰ.head e) =
      let site' : (r.site_id == site_id) ≡ true =
        let s : r.site_id ≡ site_id = ap (λ x. x.site_id) (sym e) ∙ site in ground arith in
      let on' : r.is_active ≡ true = ap (λ x. x.is_active) (sym e) ∙ on in
      let both : ((r.site_id == site_id) && r.is_active) ≡ true = rw site' on' in
      rw both (Memᴰ.head e)
  candidates-Memᴰ site_id row (r ∷ rows) site on (Memᴰ.tail m) =
      let rest = candidates-Memᴰ site_id row rows site on m in
      elim (Bool-cases ((r.site_id == site_id) && r.is_active)) [
        | inl yes_in ↦ rw yes_in (Memᴰ.tail rest)
        | inr not_in ↦ rw not_in rest
      ]

  newest_first-IsSortedBy : (rows : List (Limit W)) → IsSortedBy newer (newest_first rows)
  newest_first-IsSortedBy rows =
      sort_by-IsSortedBy newer (λ a b c p q. ground arith) (λ a b p. ground arith) rows

  -- Every limit of the site that is active and has not expired has its key among the limits that
  -- are returned, with one that was received no earlier.
  pub active_load_control_limits-covered :
      (site_id now : ℕ) (limits : List (Limit W)) (row : Limit W)
      → Mem row limits
      → row.site_id ≡ site_id
      → row.is_active ≡ true
      → is_expired now row ≡ false
      → covered row (active_load_control_limits site_id now limits).0 ≡ true
  unfolding active_load_control_limits seen
  active_load_control_limits-covered site_id now limits row m site on valid =
      ∥∥₁_elim m (hlevel) (λ d.
        ∥∥₁_elim
          ((Perm.mem_iff (sort_by-perm newer (candidates site_id limits))).1
            ∣ candidates-Memᴰ site_id row limits site on d ∣₁)
          (hlevel)
          (λ s.
            split_active-covered now [] (newest_first (candidates site_id limits)) row
              (newest_first-IsSortedBy (candidates site_id limits)) s valid refl))

  -- The limits that are returned have not expired, and no two of them have the same key.
  pub active_load_control_limits-AreCurrent :
      (site_id now : ℕ) (limits : List (Limit W))
      → AreCurrent now [] (active_load_control_limits site_id now limits).0
  unfolding active_load_control_limits
  active_load_control_limits-AreCurrent site_id now limits =
      split_active-AreCurrent now [] (newest_first (candidates site_id limits))
