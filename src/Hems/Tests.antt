-- ===== src/Hems/Tests.antt =====
-- The theorems of the energy management at concrete inputs, with whole numbers for floats.
use mathlib.Core.List.{Memᴰ}
use helios_home.Prelude.{
  strip, ℕ, ◌≡◌, refl, String, true, false, not, ◌&&◌, Option, none, some, List, [], ◌∷◌, ℤ, pos,
  negsuc, ok, ◌⊎◌,
}
use helios_home.Prelude.Float.{units, units-IsOrdered}
use helios_home.Prelude.Json.{get, get_or, as_bool, Fields, Repr, real, bool, field, end}
use helios_home.Hems.Models.{CommandContract, Device}
use helios_home.Hems.Dispatchability
use helios_home.Hems.Dispatchability.{
  validation_state, build_command_contract, assess_dispatchability,
}
use helios_home.Hems.Dispatchability.Safety.Contracts.{HasBounds}
use helios_home.Hems.Dispatchability.Safety.{
  IsSafe, build_command_contract-HasBounds, assess_dispatchability-IsSafe,
}
use helios_home.Hems.LoadControl.{Limit, LimitTables, Delivery, lpc_use_case}
use helios_home.Hems.LoadControl.Limits.{active_load_control_limits, record_load_control_limit}
use helios_home.Hems.LoadControl.Limits.Active.{
  covered, AreCurrent, active_load_control_limits-covered, active_load_control_limits-AreCurrent,
}
use helios_home.Hems.LoadControl.Limits.Recorded.{
  rows_where, same_as, record_load_control_limit-replaces,
}
use helios_home.Hems.LoadControl.Grid.{GridLimits, Participant, effective_grid_limits}
use helios_home.Hems.LoadControl.Grid.Effective.{
  IsWithin, RespectsAll, effective_grid_limits-RespectsAll,
}
use helios_home.Hems.LoadControl.Deliveries.{
  DispatchEvent, create_load_control_deliveries, update_load_control_delivery_status,
  update_native_delivery_statuses_from_plan,
}
use helios_home.Hems.LoadControl.Deliveries.Creation.{AreFor, create_load_control_deliveries-AreFor}
use helios_home.Hems.LoadControl.Deliveries.Progress.{
  AreConsistent, create_load_control_deliveries-AreConsistent,
  update_load_control_delivery_status-AreConsistent,
}
use helios_home.Hems.LoadControl.Deliveries.Followed.{
  AreFollowed, update_native_delivery_statuses_from_plan-AreFollowed,
}
use helios_home.Hems.LoadControl.Deliveries.Reached.{
  AreRecorded, create, report, plan, here, next, Reach-AreRecorded,
}
use helios_home.Hems.Dispatcher.{
  CanonicalAsset, PlannedInterval, DispatchTarget, Session, WriteAdapter, clamped_command,
}
use helios_home.Hems.Dispatcher.Clamping.{clamped_command-IsWithin}
use helios_home.Hems.Dispatcher.Clamping
use helios_home.Hems.Dispatcher.Adapters.{resolve_write_adapter, dispatch_current_interval}
use helios_home.Hems.Dispatcher.Adapters.Gating.{
  IsSuited, IsInert, resolve_write_adapter-IsSuited, dispatch_current_interval-IsInert,
}

instance abbrev plain_repr : Repr ℤ
plain_repr = record { repr = λ v. "value" }

abbrev empty : Fields ℤ
empty = end

abbrev limit_row : String → ℤ → ℕ → Option ℕ → Limit ℤ
limit_row id watts at expires = record {
  id = id;
  site_id = 1;
  use_case = lpc_use_case;
  limit_id = 4;
  direction = "consume";
  source = "eebus";
  peer_ski = "ab12";
  limit_watts = watts;
  duration_seconds = none;
  is_active = true;
  raw = empty;
  received_at = at;
  expires_at = expires;
}

abbrev older : Limit ℤ
older = limit_row "first" (pos 8000) 100 none

abbrev newer_row : Limit ℤ
newer_row = limit_row "second" (pos 4200) 200 (some 900)

abbrev limit_rows : List (Limit ℤ)
limit_rows = older ∷ newer_row ∷ []

active_load_control_limits-covered_example :
    covered older (active_load_control_limits 1 300 limit_rows).0 ≡ true
active_load_control_limits-covered_example =
    active_load_control_limits-covered 1 300 limit_rows older ∣ Memᴰ.head refl ∣₁ refl refl refl

active_load_control_limits-AreCurrent_example :
    AreCurrent 300 [] (active_load_control_limits 1 300 limit_rows).0
active_load_control_limits-AreCurrent_example =
    active_load_control_limits-AreCurrent 1 300 limit_rows

abbrev tables : LimitTables ℤ
tables = record { limits = limit_rows; configs = []; devices = [] }

record_load_control_limit-replaces_example :
    let recorded =
      record_load_control_limit "third" 400 1 lpc_use_case 4 "consume" "eebus"
        (some " AB12 ")
        (pos 3000)
        (some 60)
        true
        empty
        tables in
    (rows_where (λ row. same_as recorded.0 row && row.is_active) recorded.1.limits
      ≡ recorded.0 ∷ [])
    × (rows_where (λ row. not (same_as recorded.0 row)) recorded.1.limits
        ≡ rows_where (λ row. not (same_as recorded.0 row)) limit_rows)
record_load_control_limit-replaces_example =
    record_load_control_limit-replaces "third" 400 1 lpc_use_case 4 "consume" "eebus"
      (some " AB12 ") (pos 3000) (some 60) true empty tables

abbrev policy : GridLimits ℤ
policy = record { grid_import_limit_kw = pos 11; grid_export_limit_kw = pos 7 }

effective_grid_limits-RespectsAll_example :
    IsWithin (effective_grid_limits 1 policy 300 limit_rows).0 policy
    × RespectsAll
        (effective_grid_limits 1 policy 300 limit_rows).0
        (active_load_control_limits 1 300 limit_rows).0
effective_grid_limits-RespectsAll_example =
    effective_grid_limits-RespectsAll units-IsOrdered 1 policy 300 limit_rows

abbrev heat_pump : Participant ℤ
heat_pump = record {
  device_id = "heat-pump";
  device_name = "Heat pump";
  share_pct = pos 50;
  normalized_share = pos 1;
  allocated_limit_watts = pos 2100;
  control_available = true;
  control_path = "shelly_http_relay";
  target_endpoint_ref = "endpoint-1";
  target_peer_ski = "";
  status = "dispatchable";
}

abbrev drawn : ℕ → String
drawn k = "delivery"

abbrev deliveries : List (Delivery ℤ)
deliveries = create_load_control_deliveries drawn 0 newer_row (heat_pump ∷ [])

create_load_control_deliveries-AreFor_example :
    AreFor newer_row (create_load_control_deliveries drawn 0 newer_row (heat_pump ∷ []))
create_load_control_deliveries-AreFor_example =
    create_load_control_deliveries-AreFor drawn 0 newer_row (heat_pump ∷ [])

update_load_control_delivery_status-AreConsistent_example :
    AreConsistent
      (update_load_control_delivery_status "delivery" "readback_confirmed" "" "" empty 500
        deliveries).1
update_load_control_delivery_status-AreConsistent_example =
    update_load_control_delivery_status-AreConsistent "delivery" "readback_confirmed" "" "" empty
      500 deliveries
      (create_load_control_deliveries-AreConsistent drawn 0 newer_row (heat_pump ∷ []))

abbrev applied_event : DispatchEvent ℤ
applied_event = record {
  device_id = "heat-pump";
  status = "applied";
  summary = "";
  details = empty;
}

update_native_delivery_statuses_from_plan-AreFollowed_example :
    AreFollowed
      (applied_event ∷ [])
      deliveries
      (update_native_delivery_statuses_from_plan 600 (applied_event ∷ []) deliveries)
update_native_delivery_statuses_from_plan-AreFollowed_example =
    update_native_delivery_statuses_from_plan-AreFollowed 600 (applied_event ∷ []) deliveries

-- The delivery is created, reported as sent, and acknowledged by the pass over the plan.
Reach-AreRecorded_example : AreRecorded (
    update_native_delivery_statuses_from_plan 600
      (applied_event ∷ [])
      (update_load_control_delivery_status "delivery" "sent" "" "" empty 500 deliveries).1)
Reach-AreRecorded_example =
    Reach-AreRecorded [] _
      (next
        (next (next here (create drawn 0 newer_row (heat_pump ∷ [])))
          (report "delivery" "sent" "" "" empty 500))
        (plan 600 (applied_event ∷ [])))
      tt

abbrev sent_delivery : Delivery ℤ
sent_delivery = record {
  id = "delivery";
  site_id = 1;
  constraint_id = "second";
  source_peer_ski = "ab12";
  target_device_id = "heat-pump";
  target_endpoint_ref = "endpoint-1";
  target_peer_ski = "";
  use_case = lpc_use_case;
  limit_id = 4;
  limit_watts = pos 4200;
  allocated_limit_watts = pos 2100;
  duration_seconds = none;
  is_active = true;
  status = "acknowledged";
  detail = "";
  last_error = "";
  control_path = "";
  updates = [];
  requested_at = 200;
  sent_at = some 250;
  acknowledged_at = some 260;
  readback_at = none;
  updated_at = 260;
}

abbrev contract : CommandContract ℤ
contract = record {
  command_key = "set_power_kw";
  value_type = "number";
  unit = some "kW";
  minimum = some (negsuc 4);
  maximum = some (pos 5);
  allowed_values = [];
  adapter_name = some "telemetry_simulation";
  validation_state = "simulation";
  requires_native_writes = false;
  safety_checks = [];
}

abbrev battery : CanonicalAsset ℤ
battery = record {
  asset_key = "battery";
  asset_type = "battery";
  device_id = some "battery-1";
  telemetry = empty;
  constraints = empty;
  command_contract = some contract;
}

abbrev charge : PlannedInterval ℤ
charge = record {
  asset_key = "battery";
  asset_type = "battery";
  device_id = some "battery-1";
  starts_at = 100;
  ends_at = 200;
  command = field "set_power_kw" (real (pos 9)) end;
  predicted_state = empty;
}

clamped_command-IsWithin_example :
    Clamping.IsWithin (negsuc 4) (pos 5) (field "set_power_kw" (real (pos 5)) end)
unfolding clamped_command
clamped_command-IsWithin_example =
    clamped_command-IsWithin units-IsOrdered battery charge contract (negsuc 4) (pos 5)
      (field "set_power_kw" (real (pos 5)) end) refl refl refl refl refl refl refl refl

abbrev simulated : WriteAdapter ℤ ℕ
simulated = record {
  adapter_name = "telemetry_simulation";
  supports = λ target interval. true;
  apply = λ target interval session. ok (
    record {
      status = "simulated";
      requested_command = empty;
      applied_command = empty;
      summary = "";
      details = empty;
    },
    session,
  );
}

abbrev relay : WriteAdapter ℤ ℕ
relay = record simulated { adapter_name = "shelly_http_relay" }

abbrev target : DispatchTarget ℤ
target = record {
  canonical_asset = battery;
  device = none;
  linked_asset = none;
  candidate = none;
  endpoint_evidence = empty;
}

resolve_write_adapter-IsSuited_example :
    IsSuited target charge simulated × ((false ≡ true) ⊎ (simulated ≡ simulated))
unfolding resolve_write_adapter
resolve_write_adapter-IsSuited_example =
    resolve_write_adapter-IsSuited simulated (relay ∷ []) false target charge simulated refl

abbrev session : Session ℤ ℕ
session = record { devices = []; assets = []; candidates = []; endpoints = []; world = 0 }

dispatch_current_interval-IsInert_example : IsInert session (
    dispatch_current_interval simulated
      (relay ∷ [])
      true
      (battery ∷ [])
      (charge ∷ [])
      "plan_only"
      150
      session)
dispatch_current_interval-IsInert_example =
    dispatch_current_interval-IsInert simulated (relay ∷ []) true (battery ∷ []) (charge ∷ [])
      "plan_only" 150 session refl

abbrev battery_telemetry : Fields ℤ
battery_telemetry = field "simulation_supported" (bool true) end

abbrev battery_constraints : Fields ℤ
battery_constraints =
    field "max_charge_kw" (real (pos 5)) (field "max_discharge_kw" (real (pos 4)) end)

abbrev battery_device : Device ℤ
battery_device = record {
  id = "battery-1";
  site_id = 1;
  name = "Battery";
  device_type = "battery";
  primary_status = "controllable";
  capabilities =
      field "visible" (bool true)
        (field "monitorable" (bool true) (field "controllable" (bool true) end));
  telemetry = battery_telemetry;
  last_seen_at = 0;
}

abbrev battery_bounds : CommandContract ℤ
battery_bounds = record {
  command_key = "set_power_kw";
  value_type = "number";
  unit = some "kW";
  minimum = some (negsuc 4);
  maximum = some (pos 4);
  allowed_values = [];
  adapter_name = some "telemetry_simulation";
  validation_state = "simulation";
  requires_native_writes = false;
  safety_checks = "fresh_telemetry" ∷ "battery_soc_guard" ∷ "power_limit_clamp" ∷ [];
}

build_command_contract-HasBounds_example : HasBounds battery_bounds
unfolding build_command_contract Dispatchability.battery_contract validation_state strip get_or
    as_bool
build_command_contract-HasBounds_example =
    build_command_contract-HasBounds units-IsOrdered "battery" battery_telemetry battery_constraints
      empty false battery_bounds [] refl refl

assess_dispatchability-IsSafe_example :
    IsSafe
      (some battery_device)
      "battery"
      false
      (assess_dispatchability
        (some battery_device)
        "battery"
        battery_telemetry
        battery_constraints
        empty
        false).command_contract
unfolding assess_dispatchability build_command_contract Dispatchability.battery_contract
    validation_state strip get get_or as_bool
assess_dispatchability-IsSafe_example =
    assess_dispatchability-IsSafe (some battery_device) "battery" battery_telemetry
      battery_constraints empty false refl
