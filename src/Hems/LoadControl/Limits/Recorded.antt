-- ===== src/Hems/LoadControl/Limits/Recorded.antt =====
-- What record_load_control_limit leaves in the table of limits.
use mathlib.Core.List.{append-nil}
use helios_home.Prelude.{
  ℕ, ◌≡◌, refl, ap, Bool, true, ◌&&◌, Option, List, [], ◌∷◌, ◌++◌, arith, Bool-cases, inl, inr,
  ◌==◌, str_eq, str_eq_refl, ◌∙◌, String, ℤ, if◌then◌else◌, not,
}
use helios_home.Prelude.Json.{Fields}
use helios_home.Hems.LoadControl.{Limit, LimitTables}
use helios_home.Hems.LoadControl.Limits.{same_limit, deactivate_same, record_load_control_limit}

module _ {W : Type 0} where
  abbrev pub rows_where : (Limit W → Bool) → List (Limit W) → List (Limit W)
  rows_where test [] = []
  rows_where test (row ∷ rows) =
      let rest = rows_where test rows in if test row then row ∷ rest else rest

  -- The rows of the same limit as a row: its site, its use case, its number and its peer.
  abbrev pub same_as : Limit W → Limit W → Bool
  same_as limit = same_limit limit.site_id limit.use_case limit.limit_id limit.peer_ski

  rows_where-append :
      (test : Limit W → Bool) (a b : List (Limit W))
      → rows_where test (a ++ b) ≡ rows_where test a ++ rows_where test b
  rows_where-append test [] b = refl
  rows_where-append test (row ∷ a) b = elim (Bool-cases (test row)) [
    | inl p ↦ rw p (ap (λ l. row ∷ l) (rows_where-append test a b))
    | inr p ↦ rw p (rows_where-append test a b)
  ]

  same_as_refl : (limit : Limit W) → same_as limit limit ≡ true
  same_as_refl limit =
      let u : str_eq limit.use_case limit.use_case ≡ true = str_eq_refl _ in
      let p : str_eq limit.peer_ski limit.peer_ski ≡ true = str_eq_refl _ in
      let l : (limit.limit_id == limit.limit_id) ≡ true = ground arith in
      let s : (limit.site_id == limit.site_id) ≡ true = ground arith in
      rw u (rw p (rw l (rw s refl)))

  deactivate_same-none :
      (s : ℕ) (u : String) (l : ℕ) (p : String) (rows : List (Limit W))
      → rows_where (λ row. same_limit s u l p row && row.is_active) (deactivate_same s u l p rows)
        ≡ []
  unfolding deactivate_same
  deactivate_same-none s u l p [] = refl
  deactivate_same-none s u l p (row ∷ rows) = elim (Bool-cases (same_limit s u l p row)) [
    | inl same ↦ elim (Bool-cases row.is_active) [
      | inl on ↦ rw same (rw on (rw same (deactivate_same-none s u l p rows)))
      | inr off ↦ rw same (rw off (rw same (deactivate_same-none s u l p rows)))
    ]
    | inr other ↦ rw other (rw other (deactivate_same-none s u l p rows))
  ]

  deactivate_same-others :
      (s : ℕ) (u : String) (l : ℕ) (p : String) (rows : List (Limit W))
      → rows_where (λ row. not (same_limit s u l p row)) (deactivate_same s u l p rows)
        ≡ rows_where (λ row. not (same_limit s u l p row)) rows
  unfolding deactivate_same
  deactivate_same-others s u l p [] = refl
  deactivate_same-others s u l p (row ∷ rows) = elim (Bool-cases (same_limit s u l p row)) [
    | inl same ↦ elim (Bool-cases row.is_active) [
      | inl on ↦ rw same (rw on (rw same (deactivate_same-others s u l p rows)))
      | inr off ↦ rw same (rw off (rw same (deactivate_same-others s u l p rows)))
    ]
    | inr other ↦
        rw other (rw other (ap (λ rest. row ∷ rest) (deactivate_same-others s u l p rows)))
  ]

  -- After a limit is recorded, the active rows of the same limit are the new row alone, or none when
  -- the new row is not active, and the rows of all other limits are as they were.
  pub record_load_control_limit-replaces :
      (fresh_id : String) (now site_id : ℕ) (use_case : String) (limit_id : ℕ)
      (direction source : String) (peer_ski : Option String) (limit_watts : ℤ)
      (duration_seconds : Option ℕ) (is_active : Bool) (raw : Fields W) (t : LimitTables W)
      → let recorded =
          record_load_control_limit fresh_id now site_id use_case limit_id direction source peer_ski
            limit_watts duration_seconds is_active raw t in
        (rows_where (λ row. same_as recorded.0 row && row.is_active) recorded.1.limits
          ≡ (if is_active then recorded.0 ∷ [] else []))
        × (rows_where (λ row. not (same_as recorded.0 row)) recorded.1.limits
            ≡ rows_where (λ row. not (same_as recorded.0 row)) t.limits)
  unfolding record_load_control_limit
  record_load_control_limit-replaces fresh_id now site_id use_case limit_id direction source
        peer_ski limit_watts duration_seconds is_active raw t =
      let recorded =
        record_load_control_limit fresh_id now site_id use_case limit_id direction source peer_ski
          limit_watts duration_seconds is_active raw t in
      let limit = recorded.0 in
      let own = same_as_refl limit in
      let olds = deactivate_same site_id use_case limit_id limit.peer_ski t.limits in
      (
        rows_where-append (λ row. same_as limit row && row.is_active) olds (limit ∷ [])
            ∙ (rw (deactivate_same-none site_id use_case limit_id limit.peer_ski t.limits)
                (rw own refl)),
        rows_where-append (λ row. not (same_as limit row)) olds (limit ∷ [])
            ∙ (rw own (
                append-nil (rows_where (λ row. not (same_as limit row)) olds)
                ∙ deactivate_same-others site_id use_case limit_id limit.peer_ski t.limits)),
      )
