-- ===== src/Hems/Writers/Unwritten.antt =====
-- While native writes are disabled, a dispatch reaches no device.
use helios_home.Prelude.{
  ◌≡◌, ◌∙◌, refl, ℕ, String, false, ◌&&◌, Option, none, some, List, [], ◌∷◌, str_eq, Bool-cases,
  inl, inr, Result, ok, err, ◌>>=◌,
}
use helios_home.Prelude.Float.{Float}
use helios_home.Prelude.Json.{Json, Fields, Repr}
use helios_home.Hems.Models.{Device}
use helios_home.Hems.Dispatcher.{
  Failure, CanonicalAsset, PlannedInterval, LinkedAsset, DispatchTarget, Session, WriteAdapter,
  clamped_command, current_intervals,
}
use helios_home.Hems.Dispatcher.Adapters.{
  is_preferred, preferred, build_dispatch_target, resolve_write_adapter, first_supporting,
  applied_by, with_asset, dispatch_each, dispatch_current_interval, assets_at,
}
use helios_home.Hems.Writers.{command_value, stored}
use helios_home.Hems.Writers.Simulation.{
  simulated_rows, applied_value, finished, with_rows, simulation_apply, telemetry_simulation,
}

module _ {W X : Type 0} where
  -- What does not raise leaves the world of the devices as it is.
  abbrev pub KeepsWorld : {A : Type 0} → Session W X → Result Failure (A × Session W X) → Type 0
  KeepsWorld session (err e) = Unit
  KeepsWorld session (ok (a, after)) = after.world ≡ session.world

  bind_value :
      {A B : Type 0} (session : Session W X) (f : Result Failure A)
      (g : A → Result Failure (B × Session W X))
      → ((a : A) → KeepsWorld session (g a))
      → KeepsWorld session (f >>= g)
  bind_value session (err e) g h = tt
  bind_value session (ok a) g h = h a

  bind_session :
      {A B : Type 0} (session : Session W X) (f : Result Failure (A × Session W X))
      (g : A × Session W X → Result Failure (B × Session W X))
      → KeepsWorld session f
      → ((a : A) (s : Session W X) → s.world ≡ session.world → KeepsWorld session (g (a, s)))
      → KeepsWorld session (f >>= g)
  bind_session session (err e) g k h = tt
  bind_session session (ok (a, s)) g k h = h a s k

  KeepsWorld-trans :
      {A : Type 0} (session s : Session W X) (f : Result Failure (A × Session W X))
      → s.world ≡ session.world
      → KeepsWorld s f
      → KeepsWorld session f
  KeepsWorld-trans session s (err e) h k = tt
  KeepsWorld-trans session s (ok (a, after)) h k = k ∙ h

module _ {W X : Type 0} ⦃fl : Float W⦄ ⦃r : Repr W⦄ where
  finished-KeepsWorld :
      (interval : PlannedInterval W) (command : String × Json W)
      (rows : Option (Device W × LinkedAsset W)) (session : Session W X)
      → KeepsWorld session (finished interval command rows session)
  unfolding finished stored
  finished-KeepsWorld interval command none session = refl
  finished-KeepsWorld interval (key, raw_value) (some (d, a)) session =
      bind_value session (applied_value raw_value) _ (λ value. refl)

  with_rows-KeepsWorld :
      (target : DispatchTarget W) (interval : PlannedInterval W) (d : Option (Device W))
      (a : Option (LinkedAsset W)) (session : Session W X)
      → KeepsWorld session (with_rows target interval d a session)
  unfolding with_rows
  with_rows-KeepsWorld target interval none a session = refl
  with_rows-KeepsWorld target interval (some d) none session = refl
  with_rows-KeepsWorld target interval (some d) (some a) session =
      bind_value session (command_value interval) _ (λ command.
        bind_value session (simulated_rows target.canonical_asset interval command.1 (d, a)) _
          (λ rows. finished-KeepsWorld interval command rows session))

  simulation-KeepsWorld :
      (target : DispatchTarget W) (interval : PlannedInterval W) (session : Session W X)
      → KeepsWorld session (simulation_apply target interval session)
  unfolding simulation_apply
  simulation-KeepsWorld target interval session =
      with_rows-KeepsWorld target interval target.device target.linked_asset session

  applied_by-KeepsWorld :
      (native : List (WriteAdapter W X)) (target : DispatchTarget W) (requested clamped : Fields W)
      (interval : PlannedInterval W) (session : Session W X)
      → KeepsWorld session (
          applied_by telemetry_simulation native false
            (resolve_write_adapter telemetry_simulation native false target interval)
            target
            requested
            clamped
            interval
            session)
  unfolding applied_by resolve_write_adapter first_supporting
  applied_by-KeepsWorld native target requested clamped interval session =
      elim (Bool-cases (
        is_preferred (preferred target.canonical_asset.command_contract)
          (telemetry_simulation {W = W} {X = X}).adapter_name
        && (telemetry_simulation {W = W} {X = X}).supports target interval)) [
          | inl chosen ↦ rw chosen (
              bind_session session (simulation_apply target interval session) _
                (simulation-KeepsWorld target interval session) (λ outcome s same. same))
          | inr other ↦ rw other refl
        ]

  with_asset-KeepsWorld :
      (native : List (WriteAdapter W X)) (asset : Option (CanonicalAsset W)) (mode : String)
      (interval : PlannedInterval W) (session : Session W X)
      → KeepsWorld session
          (with_asset telemetry_simulation native false asset mode interval session)
  unfolding with_asset
  with_asset-KeepsWorld native none mode interval session = refl
  with_asset-KeepsWorld native (some asset) mode interval session =
      bind_value session (clamped_command asset interval) _ (λ clamped.
        elim (Bool-cases (str_eq mode "guarded_auto")) [
          | inl guarded ↦ rw guarded (
              applied_by-KeepsWorld native (build_dispatch_target session asset) interval.command
                clamped (record interval { command = clamped }) session)
          | inr planned ↦ rw planned refl
        ])

  dispatch_each-KeepsWorld :
      (native : List (WriteAdapter W X)) (assets : List (CanonicalAsset W)) (mode : String)
      (intervals : List (PlannedInterval W)) (session : Session W X)
      → KeepsWorld session
          (dispatch_each telemetry_simulation native false assets mode intervals session)
  unfolding dispatch_each
  dispatch_each-KeepsWorld native assets mode [] session = refl
  dispatch_each-KeepsWorld native assets mode (i ∷ is) session =
      bind_session session
        (with_asset telemetry_simulation native false (assets_at i.asset_key assets) mode i session)
        _ (with_asset-KeepsWorld native (assets_at i.asset_key assets) mode i session)
        (λ one s same.
          bind_session session (dispatch_each telemetry_simulation native false assets mode is s) _
            (KeepsWorld-trans session s _ same (dispatch_each-KeepsWorld native assets mode is s))
            (λ rest after same'. same'))

-- While native writes are disabled, a dispatch with the telemetry simulation that does not raise leaves
-- the world of the devices as it is, in every mode, whatever native adapters there are.
pub dispatch_current_interval-KeepsWorld :
    {W X : Type 0} ⦃fl : Float W⦄ ⦃r : Repr W⦄ (native : List (WriteAdapter W X))
    (assets : List (CanonicalAsset W)) (intervals : List (PlannedInterval W))
    (execution_mode : String) (now : ℕ) (session : Session W X)
    → KeepsWorld session (
        dispatch_current_interval telemetry_simulation native false assets intervals execution_mode
          now session)
unfolding dispatch_current_interval
dispatch_current_interval-KeepsWorld native assets intervals execution_mode now session =
    dispatch_each-KeepsWorld native assets execution_mode (current_intervals intervals now) session
