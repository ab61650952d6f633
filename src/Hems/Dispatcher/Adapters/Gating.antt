-- ===== src/Hems/Dispatcher/Adapters/Gating.antt =====
-- When nothing is written.
use helios_home.Prelude.{
  ◌∙◌, ◌≡◌, refl, sym, ap, String, Bool, true, false, ◌&&◌, Option, none, some, List, [], ◌∷◌, ◌++◌,
  str_eq, Bool-cases, inl, inr, Result, ok, err, ◌>>=◌, ℕ, ◌⊎◌,
}
use helios_home.Prelude.Float.{Float}
use helios_home.Prelude.Json.{Repr, end}
use helios_home.Hems.Dispatcher.{
  CanonicalAsset, PlannedInterval, clamped_command, DispatchTarget, WriteAdapter, Session,
  DispatchRecord, current_intervals,
}
use helios_home.Hems.Dispatcher.Adapters.{
  is_preferred, preferred, first_supporting, resolve_write_adapter, Dispatched, with_asset,
  dispatch_each, dispatch_current_interval, assets_at,
}

Result-cases : {E A : Type 0} (f : Result E A) → ((e : E) × (f ≡ err e)) ⊎ ((a : A) × (f ≡ ok a))
Result-cases (err e) = inl (e, refl)
Result-cases (ok a) = inr (a, refl)

module _ {W X : Type 0} where
  -- An adapter that may be used for the target.
  abbrev pub IsSuited : DispatchTarget W → PlannedInterval W → WriteAdapter W X → Type 0
  IsSuited target interval adapter =
      (is_preferred (preferred target.canonical_asset.command_contract) adapter.adapter_name ≡ true)
      × (adapter.supports target interval ≡ true)

  first_supporting-IsSuited :
      (adapters : List (WriteAdapter W X)) (target : DispatchTarget W)
      (interval : PlannedInterval W) (adapter : WriteAdapter W X)
      → first_supporting adapters target interval ≡ some adapter
      → IsSuited target interval adapter
  unfolding first_supporting
  first_supporting-IsSuited [] target interval adapter h = absurd (cc h)
  first_supporting-IsSuited (a ∷ rest) target interval adapter h =
      let wanted =
        is_preferred (preferred target.canonical_asset.command_contract) a.adapter_name in
      elim (Bool-cases wanted) [
        | inl w ↦ elim (Bool-cases (a.supports target interval)) [
          | inl s ↦
              let same : a ≡ adapter = cc (rw (w, s) at h) in
              (
                ap
                      (λ x.
                        is_preferred (preferred target.canonical_asset.command_contract)
                          x.adapter_name)
                      (sym same)
                    ∙ w,
                ap (λ (x : WriteAdapter W X). x.supports target interval) (sym same) ∙ s,
              )
          | inr s ↦ first_supporting-IsSuited rest target interval adapter (rw (w, s) at h)
        ]
        | inr w ↦ first_supporting-IsSuited rest target interval adapter (rw w at h)
      ]

  -- An adapter that is chosen supports the target and is the one that its contract names, if it names
  -- one; unless native writes are enabled, it is the simulation.
  pub resolve_write_adapter-IsSuited :
      (simulation : WriteAdapter W X) (native : List (WriteAdapter W X))
      (native_writes_enabled : Bool) (target : DispatchTarget W) (interval : PlannedInterval W)
      (adapter : WriteAdapter W X)
      → resolve_write_adapter simulation native native_writes_enabled target interval ≡ some adapter
      → IsSuited target interval adapter × ((native_writes_enabled ≡ true) ⊎ (adapter ≡ simulation))
  unfolding resolve_write_adapter first_supporting
  resolve_write_adapter-IsSuited simulation native true target interval adapter h =
      (first_supporting-IsSuited (simulation ∷ native) target interval adapter h, inl refl)
  resolve_write_adapter-IsSuited simulation native false target interval adapter h = (
    first_supporting-IsSuited (simulation ∷ []) target interval adapter h,
    inr
        (elim (Bool-cases (
          is_preferred (preferred target.canonical_asset.command_contract) simulation.adapter_name
          && simulation.supports target interval)) [
            | inl s ↦ sym (cc (rw s at h))
            | inr s ↦ absurd (cc (rw s at h))
          ]),
  )

module _ {W : Type 0} where
  -- Every record says that the dispatch was skipped, and that nothing was applied.
  abbrev pub AreSkipped : List (DispatchRecord W) → Type 0
  AreSkipped [] = Unit
  AreSkipped (r ∷ rs) =
      ((r.outcome.status ≡ "skipped") × (r.outcome.applied_command ≡ end)) × AreSkipped rs

  AreSkipped-append :
      (a b : List (DispatchRecord W)) → AreSkipped a → AreSkipped b → AreSkipped (a ++ b)
  AreSkipped-append [] b h k = k
  AreSkipped-append (r ∷ a) b h k = (h.0, AreSkipped-append a b h.1 k)

module _ {W X : Type 0} where
  -- What is left of a dispatch that wrote nothing: an exception, or skipped records.
  abbrev pub IsInert : Session W X → Dispatched W X → Type 0
  IsInert session (err e) = Unit
  IsInert session (ok done) = AreSkipped done.0.0 × (done.1 ≡ session)

  abbrev joined : Dispatched W X → (Session W X → Dispatched W X) → Dispatched W X
  joined f g =
      f >>= λ one. g one.1 >>= λ rest. ok ((one.0.0 ++ rest.0.0, one.0.1 ++ rest.0.1), rest.1)

  joined-IsInert :
      (session : Session W X) (f : Dispatched W X) (g : Session W X → Dispatched W X)
      → IsInert session f
      → ((s : Session W X) → IsInert s (g s))
      → IsInert session (joined f g)
  joined-IsInert session (err e) g h k = tt
  joined-IsInert session (ok one) g h k = after (g one.1) (k one.1)
    where
      after :
          (rest : Dispatched W X)
          → IsInert one.1 rest
          → IsInert session
              (rest >>= λ rest. ok ((one.0.0 ++ rest.0.0, one.0.1 ++ rest.0.1), rest.1))
      after (err e) m = tt
      after (ok rest) m = (AreSkipped-append one.0.0 rest.0.0 h.0 m.0, m.1 ∙ h.1)

module _ {W X : Type 0} ⦃fl : Float W⦄ ⦃r : Repr W⦄ (simulation : WriteAdapter W X)
    (native : List (WriteAdapter W X)) (native_writes_enabled : Bool) (execution_mode : String)
    (unguarded : str_eq execution_mode "guarded_auto" ≡ false) where
  skipped-IsInert :
      (asset : Option (CanonicalAsset W)) (interval : PlannedInterval W) (session : Session W X)
      → IsInert session
          (with_asset simulation native native_writes_enabled asset execution_mode interval session)
  unfolding with_asset
  skipped-IsInert none interval session = (tt, refl)
  skipped-IsInert (some asset) interval session =
      elim (Result-cases (clamped_command asset interval)) [
        | inl e ↦ rw e.1 tt
        | inr clamped ↦ rw clamped.1 (rw unguarded (((refl, refl), tt), refl))
      ]

  dispatch_each-IsInert :
      (assets : List (CanonicalAsset W)) (intervals : List (PlannedInterval W))
      (session : Session W X)
      → IsInert session (
          dispatch_each simulation native native_writes_enabled assets execution_mode intervals
            session)
  unfolding dispatch_each
  dispatch_each-IsInert assets [] session = (tt, refl)
  dispatch_each-IsInert assets (i ∷ is) session =
      joined-IsInert session
        (with_asset simulation native native_writes_enabled (assets_at i.asset_key assets)
          execution_mode i session)
        (dispatch_each simulation native native_writes_enabled assets execution_mode is)
        (skipped-IsInert (assets_at i.asset_key assets) i session) (dispatch_each-IsInert assets is)

-- In every mode but `guarded_auto`, a dispatch that does not raise leaves the database and the devices
-- as they are, and every record that it returns says skipped, with nothing applied.
pub dispatch_current_interval-IsInert :
    {W X : Type 0} ⦃fl : Float W⦄ ⦃r : Repr W⦄ (simulation : WriteAdapter W X)
    (native : List (WriteAdapter W X)) (native_writes_enabled : Bool)
    (assets : List (CanonicalAsset W)) (intervals : List (PlannedInterval W))
    (execution_mode : String) (now : ℕ) (session : Session W X)
    → str_eq execution_mode "guarded_auto" ≡ false
    → IsInert session (
        dispatch_current_interval simulation native native_writes_enabled assets intervals
          execution_mode now session)
unfolding dispatch_current_interval
dispatch_current_interval-IsInert simulation native enabled assets intervals mode now session
      unguarded =
    dispatch_each-IsInert simulation native enabled mode unguarded assets
      (current_intervals intervals now) session
