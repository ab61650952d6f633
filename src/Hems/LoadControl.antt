-- ===== src/Hems/LoadControl.antt =====
-- hems/load_control.py: limits on grid power from the network operator, and their delivery to devices.
-- A table is the list of its rows; a time is a number of microseconds.
pub mod Limits
pub mod Deliveries
pub mod Grid
use text.Mathlib.Text.{starts_with}
use helios_home.Prelude.{
  ℕ, ◌+◌, ◌-◌, ◌*◌, String, Bool, true, false, not, ◌&&◌, ◌||◌, Option, none, some, List, [], ◌∷◌,
  ◌++◌, map, one_of, str_eq, strip, lower, truthy, ℤ, pos, if◌then◌else◌, leb, leb_ℤ, ◌==◌, length,
  drop, Result, ok, err,
}
use helios_home.Prelude.Float.{Float, of_nat, fmax, fmin}
use helios_home.Prelude.Json.{Fields, end}
use helios_home.Prelude.Sort.{sort_by}
use helios_home.Hems.Models.{Device}

abbrev pub lpc_use_case : String
lpc_use_case = "limitationOfPowerConsumption"

abbrev pub lpp_use_case : String
lpp_use_case = "limitationOfPowerProduction"

-- A row of `hems_load_control_limits`.
pub record Limit (W : Type 0) : Type 0 where
  pub id : String
  pub site_id : ℕ
  pub use_case : String
  pub limit_id : ℕ
  pub direction : String
  pub source : String
  pub peer_ski : String
  pub limit_watts : ℤ
  pub duration_seconds : Option ℕ
  pub is_active : Bool
  pub raw : Fields W
  pub received_at : ℕ
  pub expires_at : Option ℕ

-- A row of `hems_load_control_device_configs`.
pub record DeviceConfig (W : Type 0) : Type 0 where
  pub device_id : String
  pub site_id : ℕ
  pub receives_lpc : Bool
  pub receives_lpp : Bool
  pub participates_lpc : Bool
  pub participates_lpp : Bool
  pub lpc_share_pct : W
  pub lpp_share_pct : W
  pub updated_at : ℕ

-- An entry of `raw["updates"]` of a delivery.
pub record DeliveryUpdate (W : Type 0) : Type 0 where
  pub status : String
  pub detail : String
  pub error : String
  pub raw : Fields W
  pub at : ℕ

-- The fields of `HemsLoadControlDeviceConfigUpdate` that are applied to the row.
pub record ConfigUpdate (W : Type 0) : Type 0 where
  pub receives_lpc : Option Bool
  pub receives_lpp : Option Bool
  pub participates_lpc : Option Bool
  pub participates_lpp : Option Bool
  pub lpc_share_pct : Option W
  pub lpp_share_pct : Option W

-- The tables that a limit concerns.
pub record LimitTables (W : Type 0) : Type 0 where
  pub limits : List (Limit W)
  pub configs : List (DeviceConfig W)
  pub devices : List (Device W)

-- A row of `hems_load_control_deliveries`; of its `raw` the participant's control path and the list
-- of updates. `attempt_count` is left out: nothing here reads or writes it.
pub record Delivery (W : Type 0) : Type 0 where
  pub id : String
  pub site_id : ℕ
  pub constraint_id : String
  pub source_peer_ski : String
  pub target_device_id : String
  pub target_endpoint_ref : String
  pub target_peer_ski : String
  pub use_case : String
  pub limit_id : ℕ
  pub limit_watts : ℤ
  pub allocated_limit_watts : ℤ
  pub duration_seconds : Option ℕ
  pub is_active : Bool
  pub status : String
  pub detail : String
  pub last_error : String
  pub control_path : String
  pub updates : List (DeliveryUpdate W)
  pub requested_at : ℕ
  pub sent_at : Option ℕ
  pub acknowledged_at : Option ℕ
  pub readback_at : Option ℕ
  pub updated_at : ℕ

-- `fragment in text`
contains : String → String → Bool
contains fragment String.[] = starts_with String.[] fragment
contains fragment (String.◌∷◌ c s) = starts_with (String.◌∷◌ c s) fragment || contains fragment s

any_in : List String → String → Bool
unfolding contains
any_in [] s = false
any_in (fragment ∷ fragments) s = contains fragment s || any_in fragments s

unfoldable pub is_transient_load_control_delivery_error : String → Bool
unfolding any_in
is_transient_load_control_delivery_error error =
    let normalized = lower (strip error) in
    truthy normalized
    && any_in
        ("has not completed loadcontrol discovery yet" ∷ "is not currently connected"
          ∷ "peer ended ship session" ∷ "websocket closed by remote: code=4200"
          ∷ "reason='shutdown'" ∷ [])
        normalized

unfoldable pub load_control_delivery_status_for_display :
    {W : Type 0} → Option (Delivery W) → String × String
load_control_delivery_status_for_display none = ("", "")
load_control_delivery_status_for_display (some delivery) =
    if str_eq delivery.status "failed"
      && is_transient_load_control_delivery_error delivery.last_error
    then ("pending", "Waiting for EEBUS LoadControl path.")
    else (delivery.status, delivery.detail)

-- `setattr` of the fields that the update holds; the shares are clamped.
set_or {ℓ} : {A : Type ℓ} → Option A → A → A
set_or none old = old
set_or (some new) old = new

module _ {W : Type 0} ⦃fl : Float W⦄ where
  unfoldable pub clamped_share : Option W → W
  clamped_share none = of_nat 0
  clamped_share (some value) = fmax (of_nat 0) (fmin (of_nat 100) (fl.round value 3))

  abbrev clamped : Option W → Option W
  clamped none = none
  clamped (some share) = some (clamped_share (some share))

  -- A participant with no positive share takes the whole.
  abbrev whole_if_missing : Bool → W → W
  whole_if_missing participates share =
      if participates && fl.le share (of_nat 0) then of_nat 100 else share

  -- What `update_load_control_config` makes of the row, from the update to the row that is added.
  unfoldable pub updated_config : DeviceConfig W → ConfigUpdate W → ℕ → DeviceConfig W
  unfolding set_or clamped_share
  updated_config config update now =
      let receives_lpc = set_or update.receives_lpc config.receives_lpc in
      let receives_lpp = set_or update.receives_lpp config.receives_lpp in
      let participates_lpc = set_or update.participates_lpc config.participates_lpc in
      let participates_lpp = set_or update.participates_lpp config.participates_lpp in
      let lpc_share_pct = set_or (clamped update.lpc_share_pct) config.lpc_share_pct in
      let lpp_share_pct = set_or (clamped update.lpp_share_pct) config.lpp_share_pct in
      record {
        device_id = config.device_id;
        site_id = config.site_id;
        receives_lpc = receives_lpc;
        receives_lpp = receives_lpp;
        participates_lpc = participates_lpc;
        participates_lpp = participates_lpp;
        lpc_share_pct = whole_if_missing participates_lpc lpc_share_pct;
        lpp_share_pct = whole_if_missing participates_lpp lpp_share_pct;
        updated_at = now;
      }
