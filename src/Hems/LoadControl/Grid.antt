-- ===== src/Hems/LoadControl/Grid.antt =====
-- hems/load_control.py: the limits at the grid connection, and how a limit is shared among devices.
pub mod Effective
use Prim.Native.String.{◌++◌ as str_append}
use helios_home.Prelude.{
  ℕ, String, Bool, true, false, not, ◌&&◌, ◌||◌, Option, none, some, List, [], ◌∷◌, one_of, str_eq,
  strip, lower, truthy, ℤ, pos, if◌then◌else◌, leb, ◌==◌, length,
}
use helios_home.Prelude.Float.{Float, of_nat, fmax, fmin, lt}
use helios_home.Prelude.Json.{Fields, Json, get, or_else, as_text, as_bool, is_zero, Repr}
use helios_home.Prelude.Sort.{sort_by}
use helios_home.Hems.Models.{Device}
use helios_home.Hems.LoadControl.{Limit, DeviceConfig, lpc_use_case, lpp_use_case}
use helios_home.Hems.LoadControl.Limits.{active_load_control_limits}

-- A row of `protocol_endpoints`.
pub record ProtocolEndpoint (W : Type 0) : Type 0 where
  pub id : String
  pub site_id : ℕ
  pub owner_ref : String
  pub protocol : String
  pub host : String
  pub port : Option ℕ
  pub status : String
  pub properties : Fields W
  pub updated_at : ℕ

-- The dictionary that is made for a participant.
pub record Participant (W : Type 0) : Type 0 where
  pub device_id : String
  pub device_name : String
  pub share_pct : W
  pub normalized_share : W
  pub allocated_limit_watts : ℤ
  pub control_available : Bool
  pub control_path : String
  pub target_endpoint_ref : String
  pub target_peer_ski : String
  pub status : String

pub record GridLimits (W : Type 0) : Type 0 where
  pub grid_import_limit_kw : W
  pub grid_export_limit_kw : W

abbrev is_there {ℓ} : {A : Type ℓ} → Option A → Bool
is_there none = false
is_there (some _) = true

module _ {W : Type 0} where
  abbrev first : List (ProtocolEndpoint W) → Option (ProtocolEndpoint W)
  first [] = none
  first (e ∷ es) = some e

  matching : (ProtocolEndpoint W → Bool) → List (ProtocolEndpoint W) → List (ProtocolEndpoint W)
  matching test [] = []
  matching test (e ∷ es) = let rest = matching test es in if test e then e ∷ rest else rest

  -- `order_by(updated_at.desc()).limit(1)`
  abbrev latest :
      (ProtocolEndpoint W → Bool) → List (ProtocolEndpoint W) → Option (ProtocolEndpoint W)
  latest test es = first (sort_by (λ a b. leb b.updated_at a.updated_at) (matching test es))

  abbrev owned_by : String → ProtocolEndpoint W → Bool
  owned_by device_id e = str_eq e.owner_ref (str_append "device:" device_id)

  unfoldable pub load_control_eebus_endpoint :
      List (ProtocolEndpoint W) → String → Option (ProtocolEndpoint W)
  unfolding matching
  load_control_eebus_endpoint endpoints device_id =
      latest
        (λ e.
          owned_by device_id e
          && (str_eq e.protocol "eebus_ship" && not (str_eq e.status "disconnected")))
        endpoints

  unfoldable pub load_control_native_endpoint :
      List (ProtocolEndpoint W) → String → Option (ProtocolEndpoint W)
  unfolding matching
  load_control_native_endpoint endpoints device_id =
      latest
        (λ e.
          owned_by device_id e
          && (one_of e.protocol ("modbus_tcp" ∷ "http_local" ∷ []) && str_eq e.status "connected"))
        endpoints

  device_with : String → List (Device W) → Option (Device W)
  device_with id [] = none
  device_with id (d ∷ ds) = if str_eq d.id id then some d else device_with id ds

module _ {W : Type 0} ⦃fl : Float W⦄ where
  -- `effective_grid_limits`: the loop over the active limits.
  unfoldable pub tightened : GridLimits W → List (Limit W) → GridLimits W
  tightened limits [] = limits
  tightened limits (limit ∷ rest) =
      let limit_kw = fl.round (fl.over (fl.of_int limit.limit_watts) (of_nat 1000)) 4 in
      tightened
        (if str_eq limit.use_case lpc_use_case
          then record limits { grid_import_limit_kw = fmin limits.grid_import_limit_kw limit_kw }
          else if str_eq limit.use_case lpp_use_case
          then record limits { grid_export_limit_kw = fmin limits.grid_export_limit_kw limit_kw }
          else limits)
        rest

  -- The policy's own two limits come first; the table of limits is returned as it is left.
  unfoldable pub effective_grid_limits :
      (site_id : ℕ) (policy : GridLimits W) (now : ℕ)
      → List (Limit W)
      → GridLimits W × List (Limit W)
  unfolding tightened
  effective_grid_limits site_id policy now limits =
      let (active, after) = active_load_control_limits site_id now limits in
      (tightened policy active, after)

  abbrev share_of : String → DeviceConfig W → W
  share_of use_case config =
      fmax (of_nat 0)
        (if str_eq use_case lpc_use_case then config.lpc_share_pct else config.lpp_share_pct)

  participants_of : ℕ → String → List (DeviceConfig W) → List (DeviceConfig W)
  participants_of site_id use_case [] = []
  participants_of site_id use_case (config ∷ configs) =
      let rest = participants_of site_id use_case configs in
      if (config.site_id == site_id)
        && (if str_eq use_case lpc_use_case
            then config.participates_lpc
            else config.participates_lpp)
      then config ∷ rest
      else rest

  -- `sum(...)` goes from the left.
  shares_sum : W → String → List (DeviceConfig W) → W
  shares_sum total use_case [] = total
  shares_sum total use_case (config ∷ configs) =
      shares_sum (fl.plus total (share_of use_case config)) use_case configs

module _ {W : Type 0} ⦃fl : Float W⦄ ⦃r : Repr W⦄ where
  unfoldable pub native_control_path : Option (ProtocolEndpoint W) → String
  native_control_path none = ""
  native_control_path (some endpoint) =
      let dispatch_profile =
        strip (as_text (or_else (get endpoint.properties "dispatch_profile") (Json.text ""))) in
      if truthy dispatch_profile then dispatch_profile else "native"

  unfoldable pub endpoint_peer_ski : Option (ProtocolEndpoint W) → String
  endpoint_peer_ski none = ""
  endpoint_peer_ski (some endpoint) = lower (
      strip (
        as_text (
          or_else
            (or_else (get endpoint.properties "peer_certificate_ski")
              (get endpoint.properties "ski"))
            (Json.text ""))))

  abbrev controllable : Option (Device W) → Bool
  controllable none = false
  controllable (some device) = as_bool (get device.capabilities "controllable")

  abbrev id_or_empty : Option (ProtocolEndpoint W) → String
  id_or_empty none = ""
  id_or_empty (some endpoint) = endpoint.id

  -- One row of the loop of `build_constraint_distribution`.
  unfoldable pub participant_row :
      List (Device W) → List (ProtocolEndpoint W) → String → ℤ → W → DeviceConfig W → Participant W
  unfolding device_with load_control_eebus_endpoint load_control_native_endpoint native_control_path
      endpoint_peer_ski
  participant_row devices endpoints use_case limit_watts total_share config =
      let device = device_with config.device_id devices in
      let share = share_of use_case config in
      let normalized = if lt (of_nat 0) total_share then fl.over share total_share else of_nat 0 in
      let eebus_endpoint = load_control_eebus_endpoint endpoints config.device_id in
      let target_peer_ski = endpoint_peer_ski eebus_endpoint in
      let eebus_control_available = is_there eebus_endpoint && truthy target_peer_ski in
      let native_endpoint = load_control_native_endpoint endpoints config.device_id in
      let native_control_available = controllable device && is_there native_endpoint in
      let target_endpoint =
        if eebus_control_available
        then eebus_endpoint
        else if native_control_available
        then native_endpoint
        else none in
      record {
        device_id = config.device_id;
        device_name = elim device [ none ↦ config.device_id | some d ↦ d.name ];
        share_pct = share;
        normalized_share = fl.round normalized 6;
        allocated_limit_watts =
            if is_zero normalized
            then pos 0
            else fl.nearest (fl.times (fl.of_int limit_watts) normalized);
        control_available = native_control_available || eebus_control_available;
        control_path =
            if eebus_control_available
            then "eebus_spine"
            else if native_control_available
            then native_control_path native_endpoint
            else "";
        target_endpoint_ref = id_or_empty target_endpoint;
        target_peer_ski = target_peer_ski;
        status =
            if eebus_control_available
            then "delivery_ready"
            else if native_control_available
            then "dispatchable"
            else "configured_no_control_path";
      }

  rows_for :
      List (Device W)
      → List (ProtocolEndpoint W)
      → String
      → ℤ
      → W
      → List (DeviceConfig W)
      → List (Participant W)
  unfolding participant_row
  rows_for devices endpoints use_case limit_watts total_share [] = []
  rows_for devices endpoints use_case limit_watts total_share (config ∷ configs) =
      participant_row devices endpoints use_case limit_watts total_share config
      ∷ rows_for devices endpoints use_case limit_watts total_share configs

  -- The `participants` of `build_constraint_distribution`.
  unfoldable pub build_constraint_distribution :
      List (DeviceConfig W)
      → List (Device W)
      → List (ProtocolEndpoint W)
      → ℕ
      → String
      → ℤ
      → List (Participant W)
  unfolding participants_of shares_sum rows_for
  build_constraint_distribution configs devices endpoints site_id use_case limit_watts =
      let participants = participants_of site_id use_case configs in
      rows_for devices endpoints use_case limit_watts (shares_sum (of_nat 0) use_case participants)
        participants
