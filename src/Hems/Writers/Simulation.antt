-- ===== src/Hems/Writers/Simulation.antt =====
-- hems/write_adapters.py: `TelemetrySimulationAdapter`.
use helios_home.Prelude.{
  String, Bool, Option, none, some, [], ◌∷◌, one_of, str_eq, if◌then◌else◌, Result, ok, ◌>>=◌,
}
use helios_home.Prelude.Float.{Float, of_nat}
use helios_home.Prelude.Json.{Json, Fields, bool, real, text, end, field, get_or, put, Repr}
use helios_home.Hems.Models.{Device, simulation_adapter_name}
use helios_home.Hems.Dispatcher.{
  Failure, CanonicalAsset, PlannedInterval, DispatchOutcome, LinkedAsset, DispatchTarget, Session,
  WriteAdapter, as_float,
}
use helios_home.Hems.Dispatcher.Adapters.{simulation_supports}
use helios_home.Hems.Writers.{command_value, coerce_binary_switch_state, stored}

module _ {W : Type 0} where
  -- The value is put under the key in both rows.
  abbrev pub noted : String → Json W → Device W × LinkedAsset W → Device W × LinkedAsset W
  noted key value (d, a) = (
    record d { telemetry = put d.telemetry key value },
    record a { metrics = put a.metrics key value },
  )

  abbrev failed : PlannedInterval W → String → DispatchOutcome W
  failed interval summary = record {
    status = "failed";
    requested_command = interval.command;
    applied_command = end;
    summary = summary;
    details = end;
  }

  abbrev simulated_outcome : PlannedInterval W → Fields W → DispatchOutcome W
  simulated_outcome interval applied = record {
    status = "simulated";
    requested_command = interval.command;
    applied_command = applied;
    summary = "Applied the command through the telemetry simulation adapter.";
    details = field "adapter" (text simulation_adapter_name) end;
  }

module _ {W : Type 0} ⦃fl : Float W⦄ ⦃r : Repr W⦄ where
  -- The rows of a load that is switched: its state, and the power that it has in that state.
  switched :
      CanonicalAsset W → Bool → Device W × LinkedAsset W → Result Failure (Device W × LinkedAsset W)
  unfolding put get_or as_float
  switched asset on rows =
      as_float (get_or asset.constraints "nominal_power_kw" (real (fl.over (of_nat 1) (of_nat 4))))
      >>= λ nominal. ok (
          noted "scheduled_power_kw" (real (if on then nominal else of_nat 0))
            (noted "relay_output_on" (bool on) rows))

  number_noted :
      String
      → Json W
      → Device W × LinkedAsset W
      → Result Failure (Option (Device W × LinkedAsset W))
  unfolding put as_float
  number_noted key raw_value rows = as_float raw_value >>= λ x. ok (some (noted key (real x) rows))

  switched_or_none :
      CanonicalAsset W
      → Option Bool
      → Device W × LinkedAsset W
      → Result Failure (Option (Device W × LinkedAsset W))
  unfolding switched
  switched_or_none asset none rows = ok none
  switched_or_none asset (some on) rows = switched asset on rows >>= λ rows'. ok (some rows')

  -- The rows after the command; `none` where a load is not told to be on or off.
  unfoldable pub simulated_rows :
      CanonicalAsset W
      → PlannedInterval W
      → Json W
      → Device W × LinkedAsset W
      → Result Failure (Option (Device W × LinkedAsset W))
  unfolding number_noted switched_or_none coerce_binary_switch_state
  simulated_rows asset interval raw_value rows =
      if str_eq asset.asset_type "battery"
      then number_noted "power_kw" raw_value rows
      else if str_eq asset.asset_type "ev_charger"
      then number_noted "scheduled_charge_kw" raw_value rows
      else if one_of asset.asset_type ("heat_pump" ∷ "pv_inverter" ∷ [])
      then number_noted "scheduled_power_kw" raw_value rows
      else if str_eq asset.asset_type "controllable_load"
      then (coerce_binary_switch_state interval >>= λ on. switched_or_none asset on rows)
      else ok (some rows)

  -- The value of the command as the outcome reports it.
  pub applied_value : Json W → Result Failure (Json W)
  unfolding as_float
  applied_value (bool b) = ok (bool b)
  applied_value raw_value = as_float raw_value >>= λ x. ok (real x)

module _ {W X : Type 0} ⦃fl : Float W⦄ ⦃r : Repr W⦄ where
  unfoldable pub finished :
      PlannedInterval W
      → String × Json W
      → Option (Device W × LinkedAsset W)
      → Session W X
      → Result Failure (DispatchOutcome W × Session W X)
  unfolding stored applied_value
  finished interval command none session = ok (
    failed interval
        "The telemetry simulation adapter requires a binary command for controllable loads.",
    session,
  )
  finished interval (key, raw_value) (some (d, a)) session = applied_value raw_value >>= λ value.
      ok (simulated_outcome interval (field key value end), stored d a session)

  unfoldable pub with_rows :
      DispatchTarget W
      → PlannedInterval W
      → Option (Device W)
      → Option (LinkedAsset W)
      → Session W X
      → Result Failure (DispatchOutcome W × Session W X)
  unfolding command_value simulated_rows finished
  with_rows target interval (some d) (some a) session = command_value interval >>= λ command.
      simulated_rows target.canonical_asset interval command.1 (d, a) >>= λ rows.
      finished interval command rows session
  with_rows target interval _ _ session = ok (
    failed interval
        "Simulation could not update the target asset because the linked records are missing.",
    session,
  )

  -- `TelemetrySimulationAdapter.apply`
  unfoldable pub simulation_apply :
      DispatchTarget W
      → PlannedInterval W
      → Session W X
      → Result Failure (DispatchOutcome W × Session W X)
  unfolding with_rows
  simulation_apply target interval session =
      with_rows target interval target.device target.linked_asset session

  abbrev pub telemetry_simulation : WriteAdapter W X
  telemetry_simulation = record {
    adapter_name = simulation_adapter_name;
    supports = simulation_supports;
    apply = simulation_apply;
  }
