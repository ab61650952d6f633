-- ===== src/Hems/Models.antt =====
-- hems/models.py, hems/adapter_registry.py, domain/enums.py and the rows of db/models.py that the
-- energy-management core reads and writes. Texts stay texts; a time is a number of microseconds.
use helios_home.Prelude.{ℕ, String, Bool, Option, List, one_of, [], ◌∷◌}
use helios_home.Prelude.Json.{Fields}

-- What a dispatchability check says about an asset, without the texts that it interpolates.
pub data Reason : Type 0 where
  no_device not_visible not_monitorable status_blocks out_of_scope : Reason
  profile_not_registered native_writes_disabled no_profile : Reason
  charge_bounds_missing discharge_bounds_missing ev_bounds_missing departure_missing : Reason
  no_temperature_proxy heat_pump_bounds_missing no_curtailment rating_missing : Reason
  nominal_power_missing no_write_path contract_unmet status_too_weak : Reason

pub record CommandContract (W : Type 0) : Type 0 where
  pub command_key : String
  pub value_type : String
  pub unit : Option String
  pub minimum : Option W
  pub maximum : Option W
  pub allowed_values : List String
  pub adapter_name : Option String
  pub validation_state : String
  pub requires_native_writes : Bool
  pub safety_checks : List String

pub record DispatchabilityAssessment (W : Type 0) : Type 0 where
  pub eligibility : String
  pub reasons : List Reason
  pub command_contract : Option (CommandContract W)

-- The columns of `devices` that are read or written here.
pub record Device (W : Type 0) : Type 0 where
  pub id : String
  pub site_id : ℕ
  pub name : String
  pub device_type : String
  pub primary_status : String
  pub capabilities : Fields W
  pub telemetry : Fields W
  pub last_seen_at : ℕ

-- hems/adapter_registry.py
abbrev pub simulation_adapter_name : String
simulation_adapter_name = "telemetry_simulation"

abbrev pub supported_native_write_profiles : List String
supported_native_write_profiles =
    "shelly_http_relay" ∷ "tasmota_http_power" ∷ "sunspec_storage_basic_rate"
    ∷ "sunspec_der_wmax_pct" ∷ "sunspec_immediate_wmax_pct" ∷ []

unfoldable pub is_supported_native_dispatch_profile : String → Bool
is_supported_native_dispatch_profile profile_name =
    one_of profile_name supported_native_write_profiles
