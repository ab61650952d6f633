-- ===== src/Hems/Dispatchability.antt =====
-- hems/dispatchability.py: which assets may be commanded, and within which bounds.
pub mod Safety
use helios_home.Prelude.{
  ℕ, String, Bool, true, false, not, ◌||◌, Option, none, some, List, [], ◌∷◌, ◌++◌, one_of, str_eq,
  strip, truthy, pos, if◌then◌else◌,
}
use helios_home.Prelude.Float.{Float, of_nat}
use helios_home.Prelude.Json.{
  Json, bool, int, real, text, Fields, Repr, get, get_or, as_bool, as_text, is_zero,
}
use helios_home.Hems.Models.{
  Reason, CommandContract, DispatchabilityAssessment, Device, simulation_adapter_name,
  is_supported_native_dispatch_profile, no_device, not_visible, not_monitorable, status_blocks,
  out_of_scope, profile_not_registered, native_writes_disabled, no_profile, charge_bounds_missing,
  discharge_bounds_missing, ev_bounds_missing, departure_missing, no_temperature_proxy,
  heat_pump_bounds_missing, no_curtailment, rating_missing, nominal_power_missing, no_write_path,
  contract_unmet, status_too_weak,
}

abbrev pub supported_dispatch_asset_types : List String
supported_dispatch_asset_types =
    "battery" ∷ "controllable_load" ∷ "ev_charger" ∷ "heat_pump" ∷ "pv_inverter" ∷ []

abbrev pub runtime_allowed_device_statuses : List String
runtime_allowed_device_statuses = "connected" ∷ "controllable" ∷ "optimizable" ∷ []

abbrev pub blocking_device_statuses : List String
blocking_device_statuses =
    "authentication_required" ∷ "manufacturer_access_required" ∷ "not_integratable" ∷ []

-- How far the write path of an asset has been validated, and the adapter that it names.
pub record Validation : Type 0 where
  pub state : String
  pub adapter_name : Option String
  pub reasons : List Reason

abbrev when : Bool → Reason → List Reason
when test reason = if test then reason ∷ [] else []

-- `_validation_state`, of the stripped `dispatch_profile` and of `simulation_supported`.
validated : String → Bool → Bool → Validation
validated dispatch_profile simulation_supported native_writes_enabled =
    if truthy dispatch_profile
    then (if not (is_supported_native_dispatch_profile dispatch_profile)
        then record {
          state = "unavailable";
          adapter_name = none;
          reasons = profile_not_registered ∷ [];
        }
        else if not native_writes_enabled
        then record {
          state = "native_disabled";
          adapter_name = some dispatch_profile;
          reasons = native_writes_disabled ∷ [];
        }
        else record { state = "native"; adapter_name = some dispatch_profile; reasons = [] })
    else if simulation_supported
    then record { state = "simulation"; adapter_name = some simulation_adapter_name; reasons = [] }
    else record { state = "unavailable"; adapter_name = none; reasons = no_profile ∷ [] }

-- A contract, or the reasons why there is none.
abbrev pub Contract : Type 0 → Type 0
Contract W = Option (CommandContract W) × List Reason

-- `requires_native_writes`
abbrev requires_native : String → Bool
requires_native state = one_of state ("native" ∷ "native_disabled" ∷ [])

-- `reasons or [...]`
abbrev reasons_or : List Reason → Reason → List Reason
reasons_or [] r = r ∷ []
reasons_or reasons r = reasons

module _ {W : Type 0} where
  -- The contract of a number between two bounds.
  abbrev number_contract : String → W → W → List String → Validation → CommandContract W
  number_contract key minimum maximum checks v = record {
    command_key = key;
    value_type = "number";
    unit = some "kW";
    minimum = some minimum;
    maximum = some maximum;
    allowed_values = [];
    adapter_name = v.adapter_name;
    validation_state = v.state;
    requires_native_writes = requires_native v.state;
    safety_checks = checks;
  }

  -- `return None, reasons` if there are any, and else the contract for the bound that is there.
  abbrev unless_reasons : List Reason → Option W → (W → CommandContract W) → Contract W
  unless_reasons [] (some bound) f = (some (f bound), [])
  unless_reasons reasons bound f = (none, reasons)

  -- The contract of a battery, whose two bounds are both there unless one of them is a reason.
  abbrev bounded : List Reason → Option W → Option W → (W → W → CommandContract W) → Contract W
  bounded [] (some charge) (some discharge) f = (some (f charge discharge), [])
  bounded reasons charge discharge f = (none, reasons)

  abbrev no_proxy : Option W → List Reason
  no_proxy none = no_temperature_proxy ∷ []
  no_proxy (some t) = []

  abbrev behind : List Reason → Contract W → Contract W
  behind validation (contract, reasons) = (contract, validation ++ reasons)

  abbrev assessed : String → List Reason → Option (CommandContract W) → DispatchabilityAssessment W
  assessed eligibility reasons contract = record {
    eligibility = eligibility;
    reasons = reasons;
    command_contract = contract;
  }

module _ {W : Type 0} ⦃fl : Float W⦄ where
  -- One key: the number that it holds, and `none` where the loop goes on. A truth value is a number.
  abbrev number_of : Json W → Option W
  number_of (bool true) = some (of_nat 1)
  number_of (bool false) = some (of_nat 0)
  number_of (int n) = some (fl.of_int n)
  number_of (real x) = some x
  number_of (text s) = fl.parse s
  number_of _ = none

  abbrev first_of : Option W → Option W → Option W
  first_of none b = b
  first_of (some x) b = some x

  unfoldable pub numeric_value : Fields W → List String → Option W
  unfolding get
  numeric_value payload [] = none
  numeric_value payload (key ∷ keys) =
      first_of (number_of (get payload key)) (numeric_value payload keys)

  -- `a or b` of optional numbers: 0.0 counts as missing.
  abbrev number_or : Option W → Option W → Option W
  number_or none b = b
  number_or (some x) b = if is_zero x then b else some x

  -- `value is None or value <= 0.0`
  abbrev not_positive : Option W → Bool
  not_positive none = true
  not_positive (some x) = fl.le x (of_nat 0)

  unfoldable pub battery_contract : Fields W → Fields W → Validation → Contract W
  unfolding numeric_value
  battery_contract telemetry constraints v =
      let max_charge_kw =
        number_or (numeric_value constraints ("max_charge_kw" ∷ []))
          (numeric_value telemetry ("max_charge_power_kw" ∷ [])) in
      let max_discharge_kw =
        number_or (numeric_value constraints ("max_discharge_kw" ∷ []))
          (numeric_value telemetry ("max_discharge_power_kw" ∷ "max_charge_power_kw" ∷ [])) in
      let reasons =
        when (not_positive max_charge_kw) charge_bounds_missing
        ++ when (not_positive max_discharge_kw) discharge_bounds_missing in
      bounded reasons max_charge_kw max_discharge_kw λ charge discharge.
        number_contract "set_power_kw" (fl.round (fl.neg charge) 4) (fl.round discharge 4)
          ("fresh_telemetry" ∷ "battery_soc_guard" ∷ "power_limit_clamp" ∷ []) v

  unfoldable pub ev_contract : Fields W → Fields W → Validation → Contract W
  unfolding numeric_value
  ev_contract telemetry constraints v =
      let max_charge_kw =
        number_or (numeric_value constraints ("max_charge_kw" ∷ []))
          (numeric_value telemetry ("max_charge_kw" ∷ [])) in
      unless_reasons
        (when (not_positive max_charge_kw) ev_bounds_missing
          ++ when (not (as_bool (get constraints "departure_at"))) departure_missing)
        max_charge_kw
        λ bound.
          number_contract "set_charge_kw" (of_nat 0) (fl.round bound 4)
            ("fresh_telemetry" ∷ "charge_power_limit" ∷ "departure_deadline" ∷ []) v

  unfoldable pub heat_pump_contract : Fields W → Fields W → Validation → Contract W
  unfolding numeric_value
  heat_pump_contract telemetry constraints v =
      let max_power_kw =
        number_or (numeric_value constraints ("max_power_kw" ∷ [])) (
          numeric_value telemetry
            ("electrical_power_kw" ∷ "power_kw" ∷ "thermal_output_kw" ∷ [])) in
      unless_reasons
        (no_proxy (numeric_value constraints ("current_temperature_c" ∷ []))
          ++ when (not_positive max_power_kw) heat_pump_bounds_missing)
        max_power_kw
        λ bound.
          number_contract "set_power_kw" (of_nat 0) (fl.round bound 4)
            ("fresh_telemetry" ∷ "comfort_band" ∷ "temperature_proxy" ∷ []) v

  unfoldable pub pv_contract : Fields W → Fields W → Validation → Contract W
  unfolding numeric_value
  pv_contract telemetry constraints v =
      let supported =
        as_bool (get constraints "curtailment_supported")
        || as_bool (get telemetry "curtailment_supported") in
      let power_rating_kw =
        number_or (numeric_value constraints ("power_rating_kw" ∷ []))
          (numeric_value telemetry ("power_rating_kw" ∷ [])) in
      unless_reasons
        (when (not supported) no_curtailment ++ when (not_positive power_rating_kw) rating_missing)
        power_rating_kw
        λ bound.
          number_contract "set_power_kw" (of_nat 0) (fl.round bound 4)
            ("fresh_telemetry" ∷ "curtailment_limit" ∷ "inverter_rating" ∷ []) v

  abbrev per_thousand : Option W → Option W
  per_thousand none = none
  per_thousand (some watts) = some (fl.over watts (of_nat 1000))

  unfoldable pub controllable_load_contract : Fields W → Fields W → Validation → Contract W
  unfolding numeric_value
  controllable_load_contract telemetry constraints v =
      let stated =
        number_or (numeric_value constraints ("nominal_power_kw" ∷ []))
          (numeric_value telemetry ("power_kw" ∷ [])) in
      let nominal_power_kw =
        first_of stated (per_thousand (numeric_value telemetry ("power_w" ∷ []))) in
      unless_reasons (when (not_positive nominal_power_kw) nominal_power_missing) nominal_power_kw
        λ bound. record {
          command_key = "start_stop";
          value_type = "boolean";
          unit = none;
          minimum = none;
          maximum = none;
          allowed_values = "off" ∷ "on" ∷ [];
          adapter_name = v.adapter_name;
          validation_state = v.state;
          requires_native_writes = requires_native v.state;
          safety_checks = "fresh_telemetry" ∷ "binary_actuation" ∷ "load_power_proxy" ∷ [];
        }

  -- The checks behind the contract, for a device whose status and type passed.
  graded_contract :
      Device W → Option (CommandContract W) → List Reason → DispatchabilityAssessment W
  graded_contract device none reasons =
      assessed "plan_only" (reasons_or reasons contract_unmet) none
  graded_contract device (some c) reasons =
      if str_eq c.validation_state "native_disabled"
      then assessed "plan_only" reasons (some c)
      else if str_eq c.validation_state "unavailable"
      then assessed "plan_only" reasons (some c)
      else if not (one_of device.primary_status runtime_allowed_device_statuses)
      then assessed "plan_only" (reasons ++ status_too_weak ∷ []) (some c)
      else assessed "dispatchable" reasons (some c)

  graded : Device W → Contract W → DispatchabilityAssessment W
  unfolding graded_contract
  graded device (contract, reasons) =
      if not (as_bool (get device.capabilities "controllable"))
      then assessed "plan_only" (reasons ++ no_write_path ∷ []) contract
      else graded_contract device contract reasons

module _ {W : Type 0} ⦃fl : Float W⦄ ⦃rp : Repr W⦄ where
  unfoldable pub validation_state : Fields W → Fields W → Bool → Validation
  unfolding validated
  validation_state telemetry evidence native_writes_enabled =
      validated (strip (as_text (get_or evidence "dispatch_profile" (text ""))))
        (as_bool (get telemetry "simulation_supported")) native_writes_enabled

  unfoldable pub build_command_contract :
      String → Fields W → Fields W → Fields W → Bool → Contract W
  build_command_contract asset_type telemetry constraints evidence native_writes_enabled =
      let v = validation_state telemetry evidence native_writes_enabled in
      if str_eq asset_type "battery"
      then behind v.reasons (battery_contract telemetry constraints v)
      else if str_eq asset_type "ev_charger"
      then behind v.reasons (ev_contract telemetry constraints v)
      else if str_eq asset_type "heat_pump"
      then behind v.reasons (heat_pump_contract telemetry constraints v)
      else if str_eq asset_type "pv_inverter"
      then behind v.reasons (pv_contract telemetry constraints v)
      else if str_eq asset_type "controllable_load"
      then behind v.reasons (controllable_load_contract telemetry constraints v)
      else (none, out_of_scope ∷ [])

  unfoldable pub assess_dispatchability :
      Option (Device W)
      → String
      → Fields W
      → Fields W
      → Fields W
      → Bool
      → DispatchabilityAssessment W
  unfolding graded
  assess_dispatchability none asset_type telemetry constraints evidence native_writes_enabled =
      assessed "blocked" (no_device ∷ []) none
  assess_dispatchability (some device) asset_type telemetry constraints evidence
        native_writes_enabled =
      if not (as_bool (get device.capabilities "visible"))
      then assessed "blocked" (not_visible ∷ []) none
      else if not (as_bool (get device.capabilities "monitorable"))
      then assessed "blocked" (not_monitorable ∷ []) none
      else if one_of device.primary_status blocking_device_statuses
      then assessed "blocked" (status_blocks ∷ []) none
      else if not (one_of asset_type supported_dispatch_asset_types)
      then assessed "read_only" (out_of_scope ∷ []) none
      else graded device
          (build_command_contract asset_type telemetry constraints evidence native_writes_enabled)
