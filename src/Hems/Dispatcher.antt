-- ===== src/Hems/Dispatcher.antt =====
-- hems/dispatcher.py and the target and the choice of an adapter of hems/write_adapters.py.
pub mod Clamping
pub mod Adapters
use Prim.Native.String.{◌++◌ as str_append}
use helios_home.Prelude.{
  ℕ, String, Bool, true, false, not, ◌&&◌, ◌||◌, Option, none, some, List, [], ◌∷◌, ◌++◌, one_of,
  str_eq, strip, lower, truthy, ℤ, pos, if◌then◌else◌, leb, ltb, ◌==◌, Result, ok, err, ◌>>=◌,
}
use helios_home.Prelude.Float.{Float, of_nat, fmax, fmin}
use helios_home.Prelude.Json.{
  Json, Fields, null, bool, int, real, text, list, dict, end, field, get, get_or, put, update,
  or_else, as_text, as_bool, Repr, fields_or_empty,
}
use helios_home.Prelude.Sort.{sort_by}
use helios_home.Hems.Models.{CommandContract, Device}
use helios_home.Hems.LoadControl.Grid.{ProtocolEndpoint}

-- `StopIteration` of an empty command, and what `float(...)` raises.
pub data Failure : Type 0 where
  stop_iteration value_error type_error adapter_error : Failure

pub record CanonicalAsset (W : Type 0) : Type 0 where
  pub asset_key : String
  pub asset_type : String
  pub device_id : Option String
  pub telemetry : Fields W
  pub constraints : Fields W
  pub command_contract : Option (CommandContract W)

pub record PlannedInterval (W : Type 0) : Type 0 where
  pub asset_key : String
  pub asset_type : String
  pub device_id : Option String
  pub starts_at : ℕ
  pub ends_at : ℕ
  pub command : Fields W
  pub predicted_state : Fields W

pub record DispatchOutcome (W : Type 0) : Type 0 where
  pub status : String
  pub requested_command : Fields W
  pub applied_command : Fields W
  pub summary : String
  pub details : Fields W

pub record DispatchRecord (W : Type 0) : Type 0 where
  pub interval : PlannedInterval W
  pub outcome : DispatchOutcome W

pub record Violation (W : Type 0) : Type 0 where
  pub asset_key : String
  pub severity : String
  pub violation_type : String
  pub message : String
  pub details : Fields W

-- The columns of `assets` and `device_candidates` that a dispatch reads.
pub record LinkedAsset (W : Type 0) : Type 0 where
  pub id : String
  pub metrics : Fields W

pub record DeviceCandidate (W : Type 0) : Type 0 where
  pub matched_device_id : String
  pub evidence : Fields W
  pub updated_at : ℕ

pub record DispatchTarget (W : Type 0) : Type 0 where
  pub canonical_asset : CanonicalAsset W
  pub device : Option (Device W)
  pub linked_asset : Option (LinkedAsset W)
  pub candidate : Option (DeviceCandidate W)
  pub endpoint_evidence : Fields W

-- The tables, and the world X of the devices behind the adapters.
pub record Session (W X : Type 0) : Type 0 where
  pub devices : List (Device W)
  pub assets : List (LinkedAsset W)
  pub candidates : List (DeviceCandidate W)
  pub endpoints : List (ProtocolEndpoint W)
  pub world : X

-- The protocol `WriteAdapter`, which all adapters implement.
pub record WriteAdapter (W X : Type 0) : Type 0 where
  pub adapter_name : String
  pub supports : DispatchTarget W → PlannedInterval W → Bool
  pub apply :
      DispatchTarget W
      → PlannedInterval W
      → Session W X
      → Result Failure (DispatchOutcome W × Session W X)

module _ {W : Type 0} ⦃fl : Float W⦄ where
  -- `float(value)`
  unfoldable pub as_float : Json W → Result Failure W
  as_float null = err Failure.type_error
  as_float (bool true) = ok (of_nat 1)
  as_float (bool false) = ok (of_nat 0)
  as_float (int n) = ok (fl.of_int n)
  as_float (real x) = ok x
  as_float (text s) = elim (fl.parse s) [ none ↦ err Failure.value_error | some x ↦ ok x ]
  as_float (list _) = err Failure.type_error
  as_float (dict _) = err Failure.type_error

  abbrev value_or : Option W → W → W
  value_or none value = value
  value_or (some bound) value = bound

  unfoldable pub within_contract : CommandContract W → W → W
  within_contract contract value =
      fmax (value_or contract.minimum value) (fmin (value_or contract.maximum value) value)

  abbrev single : String → Json W → Fields W
  single key value = field key value end

  -- Without a contract for a number or a truth value, the asset's constraints bound the command.
  unfoldable pub within_constraints : CanonicalAsset W → W → Result Failure W
  unfolding as_float
  within_constraints asset value =
      if str_eq asset.asset_type "battery"
      then (as_float (get_or asset.constraints "max_charge_kw" (real (of_nat 0))) >>= λ max_charge.
          as_float (get_or asset.constraints "max_discharge_kw" (real (of_nat 0)))
          >>= λ max_discharge. ok (fmax (fl.neg max_charge) (fmin max_discharge value)))
      else if str_eq asset.asset_type "ev_charger"
      then (as_float (get_or asset.constraints "max_charge_kw" (real (of_nat 11))) >>= λ max_charge.
          ok (fmax (of_nat 0) (fmin max_charge value)))
      else if str_eq asset.asset_type "heat_pump"
      then (as_float
            (get_or asset.constraints "max_power_kw" (real (fl.over (of_nat 5) (of_nat 2))))
          >>= λ max_power. ok (fmax (of_nat 0) (fmin max_power value)))
      else if str_eq asset.asset_type "pv_inverter"
      then ok (fmax (of_nat 0) value)
      else ok value

  unfoldable pub unbounded_command : CanonicalAsset W → String → Json W → Result Failure (Fields W)
  unfolding within_constraints as_float
  unbounded_command asset key (bool b) = ok (single key (bool b))
  unbounded_command asset key raw_value = as_float raw_value >>= λ value.
      within_constraints asset value >>= λ clamped. ok (single key (real (fl.round clamped 4)))

module _ {W : Type 0} ⦃fl : Float W⦄ ⦃r : Repr W⦄ where
  -- The switch position that a value asks for.
  unfoldable pub switch_position : Json W → Bool
  switch_position (bool b) = b
  switch_position (int n) = fl.le (fl.over (of_nat 1) (of_nat 2)) (fl.of_int n)
  switch_position (real x) = fl.le (fl.over (of_nat 1) (of_nat 2)) x
  switch_position raw_value =
      let lowered = lower (strip (as_text raw_value)) in
      if one_of lowered ("on" ∷ "start" ∷ "true" ∷ "1" ∷ [])
      then true
      else if one_of lowered ("off" ∷ "stop" ∷ "false" ∷ "0" ∷ [])
      then false
      else false

  abbrev command_under :
      CanonicalAsset W → Option (CommandContract W) → String → Json W → Result Failure (Fields W)
  command_under asset none key raw_value = unbounded_command asset key raw_value
  command_under asset (some contract) key raw_value =
      if str_eq contract.value_type "boolean"
      then ok (single key (bool (switch_position raw_value)))
      else if str_eq contract.value_type "number"
      then (as_float raw_value >>= λ value.
          ok (single key (real (fl.round (within_contract contract value) 4))))
      else unbounded_command asset key raw_value

  abbrev first_command : CanonicalAsset W → Fields W → Result Failure (Fields W)
  first_command asset end = err Failure.stop_iteration
  first_command asset (field key raw_value _) =
      command_under asset asset.command_contract key raw_value

  -- `_clamped_command`
  unfoldable pub clamped_command : CanonicalAsset W → PlannedInterval W → Result Failure (Fields W)
  unfolding as_float within_contract unbounded_command switch_position
  clamped_command asset interval = first_command asset interval.command

module _ {W : Type 0} where
  running_at : ℕ → List (PlannedInterval W) → List (PlannedInterval W)
  running_at now [] = []
  running_at now (i ∷ is) =
      let rest = running_at now is in
      if leb i.starts_at now && ltb now i.ends_at then i ∷ rest else rest

  first_start : ℕ → List (PlannedInterval W) → ℕ
  first_start best [] = best
  first_start best (i ∷ is) = first_start (if ltb i.starts_at best then i.starts_at else best) is

  starting_at : ℕ → List (PlannedInterval W) → List (PlannedInterval W)
  starting_at start [] = []
  starting_at start (i ∷ is) =
      let rest = starting_at start is in if i.starts_at == start then i ∷ rest else rest

  abbrev current_or : List (PlannedInterval W) → List (PlannedInterval W) → List (PlannedInterval W)
  current_or [] [] = []
  current_or [] (i ∷ is) = starting_at (first_start i.starts_at is) (i ∷ is)
  current_or current intervals = current

  -- `_current_intervals`
  unfoldable pub current_intervals : List (PlannedInterval W) → ℕ → List (PlannedInterval W)
  unfolding running_at first_start starting_at
  current_intervals intervals now = current_or (running_at now intervals) intervals
