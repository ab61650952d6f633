-- ===== src/Hems/Dispatcher/Adapters.antt =====
-- hems/write_adapters.py: the target of a dispatch and the choice of its adapter, and the loop of
-- hems/dispatcher.py over them.
pub mod Gating
use Prim.Native.String.{◌++◌ as str_append}
use helios_home.Prelude.{
  ℕ, String, Bool, true, false, not, ◌&&◌, ◌||◌, Option, none, some, List, [], ◌∷◌, ◌++◌, one_of,
  str_eq, strip, lower, truthy, ℤ, pos, if◌then◌else◌, leb, ltb, ◌==◌, Result, ok, err, ◌>>=◌,
}
use helios_home.Prelude.Float.{Float}
use helios_home.Prelude.Json.{
  Json, Fields, null, bool, int, real, text, list, dict, end, field, get, put, update, or_else,
  as_bool, Repr, fields_or_empty,
}
use helios_home.Prelude.Sort.{sort_by}
use helios_home.Hems.Models.{CommandContract, Device, simulation_adapter_name}
use helios_home.Hems.LoadControl.Grid.{ProtocolEndpoint}
use helios_home.Hems.Dispatcher.{
  Failure, CanonicalAsset, PlannedInterval, DispatchOutcome, DispatchRecord, Violation, LinkedAsset,
  DeviceCandidate, DispatchTarget, Session, WriteAdapter, clamped_command, current_intervals,
}

has_key : {W : Type 0} → Fields W → String → Bool
has_key end key = false
has_key (field k v rest) key = str_eq k key || has_key rest key

-- `evidence.setdefault(key, value)`
setdefault : {W : Type 0} → String → Json W → Fields W → Fields W
unfolding has_key
setdefault key value d = if has_key d key then d else put d key value

port_value : {W : Type 0} → Option ℕ → Json W
port_value none = null
port_value (some port) = int (pos port)

module _ {W : Type 0} ⦃fl : Float W⦄ where
  -- `_endpoint_evidence`
  unfoldable pub endpoint_evidence : ProtocolEndpoint W → Fields W
  unfolding setdefault port_value
  endpoint_evidence endpoint =
      let p = endpoint.properties in
      let host : Json W = text endpoint.host in
      let port = port_value endpoint.port in
      let with_host = if truthy endpoint.host then setdefault "host" host p else p in
      let with_port = elim endpoint.port as (λ _. Fields W) [
        | none ↦ with_host
        | some _ ↦ setdefault "port" port with_host
      ] in
      if str_eq endpoint.protocol "modbus_tcp"
      then setdefault "modbus_unit_id"
          (or_else (or_else (get p "modbus_unit_id") (get p "unit_id")) (int (pos 1)))
          (setdefault "modbus_port" (or_else (or_else (get p "modbus_port") port) (int (pos 502)))
            (setdefault "modbus_host" (or_else (get p "modbus_host") host) with_port))
      else if str_eq endpoint.protocol "http_local"
      then setdefault "http_host" host (
          setdefault "http_base_url"
            (or_else (get p "base_url")
              (text (if truthy endpoint.host then str_append "http://" endpoint.host else "")))
            with_port)
      else with_port

  gathered : Fields W → List (ProtocolEndpoint W) → Fields W
  unfolding endpoint_evidence
  gathered evidence [] = evidence
  gathered evidence (e ∷ es) = gathered (update evidence (endpoint_evidence e)) es

  -- `DispatchTarget.evidence`
  unfoldable pub evidence : DispatchTarget W → Fields W
  evidence target =
      update (elim target.candidate [ none ↦ end | some c ↦ c.evidence ]) target.endpoint_evidence

module _ {W : Type 0} where
  device_at : String → List (Device W) → Option (Device W)
  device_at id [] = none
  device_at id (d ∷ ds) = if str_eq d.id id then some d else device_at id ds

  asset_at : String → List (LinkedAsset W) → Option (LinkedAsset W)
  asset_at id [] = none
  asset_at id (a ∷ as') = if str_eq a.id id then some a else asset_at id as'

  -- `asset.device_id` that is missing or empty names no device.
  abbrev device_of : Option String → List (Device W) → Option (Device W)
  device_of none devices = none
  device_of (some id) devices = if truthy id then device_at id devices else none

  candidates_of : String → List (DeviceCandidate W) → List (DeviceCandidate W)
  candidates_of id [] = []
  candidates_of id (c ∷ cs) =
      let rest = candidates_of id cs in if str_eq c.matched_device_id id then c ∷ rest else rest

  abbrev first : List (DeviceCandidate W) → Option (DeviceCandidate W)
  first [] = none
  first (c ∷ cs) = some c

  connected_of : String → List (ProtocolEndpoint W) → List (ProtocolEndpoint W)
  connected_of id [] = []
  connected_of id (e ∷ es) =
      let rest = connected_of id es in
      if str_eq e.owner_ref (str_append "device:" id) && str_eq e.status "connected"
      then e ∷ rest
      else rest

  pub assets_at : String → List (CanonicalAsset W) → Option (CanonicalAsset W)
  assets_at key [] = none
  assets_at key (a ∷ rest) = elim (assets_at key rest) [
    | some later ↦ some later
    | none ↦ if str_eq a.asset_key key then some a else none
  ]

module _ {W X : Type 0} ⦃fl : Float W⦄ where
  unfoldable pub build_dispatch_target : Session W X → CanonicalAsset W → DispatchTarget W
  unfolding asset_at device_at candidates_of connected_of gathered
  build_dispatch_target session asset =
      let device = device_of asset.device_id session.devices in
      record {
        canonical_asset = asset;
        device = device;
        linked_asset = asset_at asset.asset_key session.assets;
        candidate = elim device [
          | none ↦ none
          | some d ↦ first (
              sort_by (λ a b. leb b.updated_at a.updated_at)
                (candidates_of d.id session.candidates))
        ];
        endpoint_evidence = elim device [
          | none ↦ end
          | some d ↦
              gathered end (
                sort_by (λ a b. leb a.updated_at b.updated_at)
                  (connected_of d.id session.endpoints))
        ];
      }

module _ {W : Type 0} ⦃fl : Float W⦄ where
  -- `TelemetrySimulationAdapter.supports`
  abbrev pub simulation_supports_under : Option (CommandContract W) → DispatchTarget W → Bool
  simulation_supports_under none target =
      as_bool (get target.canonical_asset.telemetry "simulation_supported")
  simulation_supports_under (some contract) target = elim contract.adapter_name [
    | none ↦ as_bool (get target.canonical_asset.telemetry "simulation_supported")
    | some name ↦
        if truthy name
        then str_eq name simulation_adapter_name
        else as_bool (get target.canonical_asset.telemetry "simulation_supported")
  ]

  unfoldable pub simulation_supports : DispatchTarget W → PlannedInterval W → Bool
  simulation_supports target interval =
      simulation_supports_under target.canonical_asset.command_contract target

abbrev pub is_preferred : Option String → String → Bool
is_preferred none name = true
is_preferred (some wanted) name = str_eq name wanted

module _ {W : Type 0} where
  -- `preferred_adapter_name`
  abbrev pub preferred : Option (CommandContract W) → Option String
  preferred none = none
  preferred (some contract) = elim contract.adapter_name [
    | none ↦ none
    | some name ↦ if truthy name then some name else none
  ]

module _ {W X : Type 0} where
  unfoldable pub first_supporting :
      List (WriteAdapter W X) → DispatchTarget W → PlannedInterval W → Option (WriteAdapter W X)
  first_supporting [] target interval = none
  first_supporting (adapter ∷ adapters) target interval =
      if is_preferred (preferred target.canonical_asset.command_contract) adapter.adapter_name
        && adapter.supports target interval
      then some adapter
      else first_supporting adapters target interval

  -- `resolve_write_adapter`: the simulation, then the native adapters where the settings allow them.
  unfoldable pub resolve_write_adapter :
      (simulation : WriteAdapter W X) (native : List (WriteAdapter W X))
      (native_writes_enabled : Bool)
      → DispatchTarget W
      → PlannedInterval W
      → Option (WriteAdapter W X)
  unfolding first_supporting
  resolve_write_adapter simulation native native_writes_enabled =
      first_supporting (simulation ∷ (if native_writes_enabled then native else []))

abbrev pub Dispatched : Type 0 → Type 0 → Type 0
Dispatched W X = Result Failure ((List (DispatchRecord W) × List (Violation W)) × Session W X)

module _ {W X : Type 0} ⦃fl : Float W⦄ ⦃r : Repr W⦄ (simulation : WriteAdapter W X)
    (native : List (WriteAdapter W X)) (native_writes_enabled : Bool) where
  abbrev nothing_applied :
      String → String → Fields W → Fields W → PlannedInterval W → DispatchRecord W
  nothing_applied status summary requested details interval = record {
    interval = interval;
    outcome = record {
      status = status;
      requested_command = requested;
      applied_command = end;
      summary = summary;
      details = details;
    };
  }

  abbrev warning : String → String → String → Fields W → Violation W
  warning asset_key violation_type message details = record {
    asset_key = asset_key;
    severity = "warning";
    violation_type = violation_type;
    message = message;
    details = details;
  }

  abbrev applied_or : Fields W → Fields W → Fields W
  applied_or end clamped = clamped
  applied_or applied clamped = applied

  -- What the loop does with an adapter, or without one.
  unfoldable pub applied_by :
      Option (WriteAdapter W X)
      → DispatchTarget W
      → Fields W
      → Fields W
      → PlannedInterval W
      → Session W X
      → Dispatched W X
  applied_by none target requested clamped interval session = ok (
    (
      nothing_applied "blocked" "No validated dispatch adapter is available for this asset yet."
            requested (field "clamped_command" (dict clamped) end) interval
          ∷ [],
      warning target.canonical_asset.asset_key "missing_dispatch_adapter"
            "Guarded auto skipped dispatch because no adapter is available."
            (field "requested_command" (dict requested)
              (field "clamped_command" (dict clamped) end))
          ∷ [],
    ),
    session,
  )
  applied_by (some adapter) target requested clamped interval session =
      adapter.apply target interval session >>= λ done. ok (
        (
          record {
            interval = interval;
            outcome = record done.0 {
              requested_command = requested;
              applied_command = applied_or done.0.applied_command clamped;
            };
          }
              ∷ [],
          [],
        ),
        done.1,
      )

  unfoldable pub with_asset :
      Option (CanonicalAsset W) → String → PlannedInterval W → Session W X → Dispatched W X
  unfolding build_dispatch_target resolve_write_adapter applied_by
  with_asset none execution_mode interval session = ok (
    (
      [],
      warning interval.asset_key "missing_asset_mapping"
            "The interval references an asset that is not present in the current site model." end
          ∷ [],
    ),
    session,
  )
  with_asset (some asset) execution_mode interval session =
      clamped_command asset interval >>= λ clamped.
      let effective = record interval { command = clamped } in
      if not (str_eq execution_mode "guarded_auto")
      then ok (
        (
          nothing_applied "skipped"
                "The plan was generated in plan-only mode, so no dispatch was attempted."
                interval.command end effective
              ∷ [],
          [],
        ),
        session,
      )
      else (let target = build_dispatch_target session asset in
          applied_by
            (resolve_write_adapter simulation native native_writes_enabled target effective) target
            interval.command clamped effective session)

  unfoldable pub dispatch_each :
      List (CanonicalAsset W) → String → List (PlannedInterval W) → Session W X → Dispatched W X
  unfolding with_asset assets_at
  dispatch_each assets execution_mode [] session = ok (([], []), session)
  dispatch_each assets execution_mode (interval ∷ intervals) session =
      with_asset (assets_at interval.asset_key assets) execution_mode interval session >>= λ one.
      dispatch_each assets execution_mode intervals one.1 >>= λ rest.
      ok ((one.0.0 ++ rest.0.0, one.0.1 ++ rest.0.1), rest.1)

  unfoldable pub dispatch_current_interval :
      List (CanonicalAsset W) → List (PlannedInterval W) → String → ℕ → Session W X → Dispatched W X
  unfolding dispatch_each
  dispatch_current_interval assets intervals execution_mode now session =
      dispatch_each assets execution_mode (current_intervals intervals now) session
