-- ===== src/Hems/Writers.antt =====
-- hems/write_adapters.py: how the adapters read a command, and the setpoint of a storage.
pub mod Simulation
pub mod Relays
pub mod Unwritten
pub mod Rates
mod Tests
use Prim.Native.String.{◌++◌ as str_append}
use helios_home.Prelude.{
  ℕ, String, Bool, true, false, not, ◌||◌, Option, none, some, List, [], ◌∷◌, one_of, str_eq, strip,
  lower, truthy, ℤ, pos, if◌then◌else◌, Result, ok, err, ◌>>=◌,
}
use helios_home.Prelude.Float.{Float, of_nat, lt, fmax, fmin}
use helios_home.Prelude.Json.{Json, Fields, bool, text, end, field, put, Repr, as_text}
use helios_home.Hems.Models.{Device}
use helios_home.Hems.Dispatcher.{Failure, PlannedInterval, LinkedAsset, Session, as_float}

module _ {W : Type 0} where
  -- `_command_value`
  unfoldable pub command_value : PlannedInterval W → Result Failure (String × Json W)
  command_value interval = first_item interval.command
    where
      first_item : Fields W → Result Failure (String × Json W)
      first_item end = err Failure.value_error
      first_item (field key value _) = ok (key, value)

module _ {W : Type 0} ⦃fl : Float W⦄ ⦃r : Repr W⦄ where
  abbrev small : W
  small = fl.over (of_nat 5) (of_nat 100)

  above_small : Result Failure W → Option Bool
  above_small (err e) = none
  above_small (ok x) = some (lt small x)

  started : Json W → Option Bool
  unfolding strip lower
  started (bool b) = some b
  started raw_value =
      let lowered = lower (strip (as_text raw_value)) in
      if one_of lowered ("on" ∷ "start" ∷ "true" ∷ "1" ∷ [])
      then some true
      else if one_of lowered ("off" ∷ "stop" ∷ "false" ∷ "0" ∷ [])
      then some false
      else none

  mode_on : Json W → Option Bool
  unfolding strip lower
  mode_on raw_value =
      let lowered = lower (strip (as_text raw_value)) in
      if one_of lowered ("off" ∷ "disabled" ∷ "standby" ∷ [])
      then some false
      else if truthy lowered
      then some true
      else none

  -- `_coerce_binary_switch_state`; an empty command raises.
  unfoldable pub coerce_binary_switch_state : PlannedInterval W → Result Failure (Option Bool)
  unfolding command_value as_float above_small started mode_on
  coerce_binary_switch_state interval = command_value interval >>= λ (key, raw_value). ok (
      if one_of key ("set_power_kw" ∷ "set_charge_kw" ∷ [])
      then above_small (as_float raw_value)
      else if str_eq key "start_stop"
      then started raw_value
      else if str_eq key "set_mode"
      then mode_on raw_value
      else none)

  -- `_coerce_numeric_command`
  unfoldable pub coerce_numeric_command : PlannedInterval W → Result Failure (Option W)
  unfolding command_value as_float
  coerce_numeric_command interval =
      command_value interval >>= λ (key, raw_value). ok (number (as_float raw_value))
    where
      number : Result Failure W → Option W
      number (err e) = none
      number (ok x) = some x

-- The setpoint of `SunSpecStorageRateAdapter.apply`: the mode and the rates in percent.
pub record Setpoint (W : Type 0) : Type 0 where
  pub storage_mode : ℕ
  pub discharge_pct : W
  pub charge_pct : W

module _ {W : Type 0} ⦃fl : Float W⦄ where
  abbrev pub percent : W → W → W
  percent power limit =
      fmin (of_nat 100) (fmax (of_nat 0) (fl.times (fl.over power limit) (of_nat 100)))

  -- `abs(x)`
  abbrev absolute : W → W
  absolute x = if lt x (of_nat 0) then fl.neg x else x

  unfoldable pub storage_setpoint :
      (desired_power_kw max_charge_kw max_discharge_kw : W) → Setpoint W
  storage_setpoint desired max_charge max_discharge =
      if lt (fl.over (of_nat 5) (of_nat 100)) desired
      then record {
        storage_mode = 2;
        discharge_pct = percent desired max_discharge;
        charge_pct = of_nat 0;
      }
      else if lt desired (fl.neg (fl.over (of_nat 5) (of_nat 100)))
      then record {
        storage_mode = 1;
        discharge_pct = of_nat 0;
        charge_pct = percent (absolute desired) max_charge;
      }
      else record { storage_mode = 0; discharge_pct = of_nat 0; charge_pct = of_nat 0 }

module _ {W : Type 0} where
  put_device : Device W → List (Device W) → List (Device W)
  put_device d [] = []
  put_device d (e ∷ es) = if str_eq e.id d.id then d ∷ es else e ∷ put_device d es

  put_asset : LinkedAsset W → List (LinkedAsset W) → List (LinkedAsset W)
  put_asset a [] = []
  put_asset a (e ∷ es) = if str_eq e.id a.id then a ∷ es else e ∷ put_asset a es

module _ {W X : Type 0} where
  -- The two rows of a target are objects of the session, so a change to them changes its tables.
  unfoldable pub stored : Device W → LinkedAsset W → Session W X → Session W X
  unfolding put_device put_asset
  stored d a session = record session {
    devices = put_device d session.devices;
    assets = put_asset a session.assets;
  }
