-- ===== src/Hems/LoadControl/Grid/Effective.antt =====
-- The limits at the grid connection are never looser than the policy or an active limit.
use helios_home.Prelude.{
  refl, if◌then◌else◌, ℕ, ◌≡◌, true, List, [], ◌∷◌, str_eq, Bool-cases, inl, inr,
}
use helios_home.Prelude.Float.{Float, of_nat, fmin, IsOrdered}
use helios_home.Hems.LoadControl.{Limit, lpc_use_case, lpp_use_case}
use helios_home.Hems.LoadControl.Grid.{GridLimits, tightened, effective_grid_limits}
use helios_home.Hems.LoadControl.Limits.{active_load_control_limits}

module _ {W : Type 0} ⦃fl : Float W⦄ where
  abbrev pub limit_kw : Limit W → W
  limit_kw limit = fl.round (fl.over (fl.of_int limit.limit_watts) (of_nat 1000)) 4

  -- What limits respects a limit: import for a limit of consumption, export for one of production.
  abbrev pub Respects : GridLimits W → Limit W → Type 0
  Respects limits limit =
      (if str_eq limit.use_case lpc_use_case
        then fl.le limits.grid_import_limit_kw (limit_kw limit)
        else if str_eq limit.use_case lpp_use_case
        then fl.le limits.grid_export_limit_kw (limit_kw limit)
        else true)
      ≡ true

  abbrev pub RespectsAll : GridLimits W → List (Limit W) → Type 0
  RespectsAll limits [] = Unit
  RespectsAll limits (limit ∷ rest) = Respects limits limit × RespectsAll limits rest

  abbrev pub IsWithin : GridLimits W → GridLimits W → Type 0
  IsWithin a b =
      (fl.le a.grid_import_limit_kw b.grid_import_limit_kw ≡ true)
      × (fl.le a.grid_export_limit_kw b.grid_export_limit_kw ≡ true)

module _ {W : Type 0} ⦃fl : Float W⦄ (ord : IsOrdered W) where
  fmin-le_left : (a b : W) → fl.le (fmin a b) a ≡ true
  fmin-le_left a b = elim (Bool-cases (fl.le a b)) [
    | inl le_b ↦ rw le_b (ord.le_refl a)
    | inr gt_b ↦ rw gt_b (ord.le_total a b gt_b)
  ]

  fmin-le_right : (a b : W) → fl.le (fmin a b) b ≡ true
  fmin-le_right a b = elim (Bool-cases (fl.le a b)) [
    | inl le_b ↦ rw le_b le_b
    | inr gt_b ↦ rw gt_b (ord.le_refl b)
  ]

  IsWithin-trans : (a b c : GridLimits W) → IsWithin a b → IsWithin b c → IsWithin a c
  IsWithin-trans a b c p q = (ord.le_trans _ _ _ p.0 q.0, ord.le_trans _ _ _ p.1 q.1)

  step : GridLimits W → Limit W → GridLimits W
  unfolding tightened
  step limits limit = tightened limits (limit ∷ [])

  step-lem :
      (limits : GridLimits W) (limit : Limit W)
      → IsWithin (step limits limit) limits × Respects (step limits limit) limit
  unfolding step tightened
  step-lem limits limit = elim (Bool-cases (str_eq limit.use_case lpc_use_case)) [
    | inl lpc ↦ rw lpc ((fmin-le_left _ _, ord.le_refl _), fmin-le_right _ _)
    | inr not_lpc ↦ elim (Bool-cases (str_eq limit.use_case lpp_use_case)) [
      | inl lpp ↦ rw not_lpc (rw lpp ((ord.le_refl _, fmin-le_left _ _), fmin-le_right _ _))
      | inr not_lpp ↦ rw not_lpc (rw not_lpp ((ord.le_refl _, ord.le_refl _), refl))
    ]
  ]

  Respects-IsWithin :
      (a b : GridLimits W) (limit : Limit W) → IsWithin a b → Respects b limit → Respects a limit
  Respects-IsWithin a b limit within = elim (Bool-cases (str_eq limit.use_case lpc_use_case)) [
    | inl lpc ↦ rw lpc (λ r. ord.le_trans _ _ _ within.0 r)
    | inr not_lpc ↦ elim (Bool-cases (str_eq limit.use_case lpp_use_case)) [
      | inl lpp ↦ rw not_lpc (rw lpp (λ r. ord.le_trans _ _ _ within.1 r))
      | inr not_lpp ↦ rw not_lpc (rw not_lpp (λ r. r))
    ]
  ]

  tightened-IsWithin :
      (limits : GridLimits W) (active : List (Limit W)) → IsWithin (tightened limits active) limits
  unfolding tightened step
  tightened-IsWithin limits [] = (ord.le_refl _, ord.le_refl _)
  tightened-IsWithin limits (limit ∷ rest) =
      IsWithin-trans _ _ _ (tightened-IsWithin (step limits limit) rest) (step-lem limits limit).0

  tightened-RespectsAll :
      (limits : GridLimits W) (active : List (Limit W))
      → RespectsAll (tightened limits active) active
  unfolding tightened step
  tightened-RespectsAll limits [] = tt
  tightened-RespectsAll limits (limit ∷ rest) = (
    Respects-IsWithin _ _ limit (tightened-IsWithin (step limits limit) rest)
        (step-lem limits limit).1,
    tightened-RespectsAll (step limits limit) rest,
  )

-- The effective limits are at most the policy's, and at most every limit that is active: import for
-- limits of consumption, export for limits of production. Floats are assumed ordered.
pub effective_grid_limits-RespectsAll :
    {W : Type 0} ⦃fl : Float W⦄ (ord : IsOrdered W) (site_id : ℕ) (policy : GridLimits W) (now : ℕ)
    (limits : List (Limit W))
    → IsWithin (effective_grid_limits site_id policy now limits).0 policy
      × RespectsAll
          (effective_grid_limits site_id policy now limits).0
          (active_load_control_limits site_id now limits).0
unfolding effective_grid_limits
effective_grid_limits-RespectsAll ord site_id policy now limits =
    let active = (active_load_control_limits site_id now limits).0 in
    (tightened-IsWithin ord policy active, tightened-RespectsAll ord policy active)
