-- ===== src/Hems/Writers/Tests.antt =====
-- The theorems of the adapters at concrete inputs, with whole numbers for floats.
use helios_home.Prelude.{
  ℕ, zero, suc, ◌+◌, ◌≡◌, refl, true, false, Option, none, some, [], ◌∷◌, ℤ, pos,
}
use helios_home.Prelude.Float.{units}
use helios_home.Prelude.Json.{Repr, text, real, bool, end, field, get_or, update}
use helios_home.Hems.Models.{Device}
use helios_home.Hems.Dispatcher.{
  CanonicalAsset, PlannedInterval, DispatchTarget, LinkedAsset, Session,
}
use helios_home.Hems.Dispatcher.Adapters.{dispatch_current_interval, evidence}
use helios_home.Hems.Writers.Simulation.{telemetry_simulation}
use helios_home.Hems.Writers.Unwritten.{KeepsWorld, dispatch_current_interval-KeepsWorld}
use helios_home.Hems.Writers.Relays.{
  HttpRequest, IntParser, as_int, base_url_of, shelly_request, tasmota_request, shelly_apply,
  tasmota_apply, shelly_http_relay,
}
use helios_home.Hems.Writers.Relays.Acknowledged.{
  IsSwitched, shelly_apply-IsSwitched, tasmota_apply-IsSwitched,
}

instance abbrev shown : Repr ℤ
shown = record { repr = λ v. "value" }

instance abbrev parser : IntParser
parser = record { parse_int = λ s. none }

abbrev load : CanonicalAsset ℤ
load = record {
  asset_key = "a1";
  asset_type = "controllable_load";
  device_id = some "d1";
  telemetry = field "simulation_supported" (bool true) end;
  constraints = field "nominal_power_kw" (real (pos 2)) end;
  command_contract = none;
}

abbrev switch_on : PlannedInterval ℤ
switch_on = record {
  asset_key = "a1";
  asset_type = "controllable_load";
  device_id = some "d1";
  starts_at = 100;
  ends_at = 200;
  command = field "start_stop" (bool true) end;
  predicted_state = end;
}

abbrev plug : Device ℤ
plug = record {
  id = "d1";
  site_id = 1;
  name = "Plug";
  device_type = "controllable_load";
  primary_status = "online";
  capabilities = end;
  telemetry = end;
  last_seen_at = 100;
}

abbrev plug_asset : LinkedAsset ℤ
plug_asset = record { id = "a1"; metrics = end }

-- The world counts the requests.
abbrev session : Session ℤ ℕ
session = record {
  devices = plug ∷ [];
  assets = plug_asset ∷ [];
  candidates = [];
  endpoints = [];
  world = 0;
}

abbrev target : DispatchTarget ℤ
target = record {
  canonical_asset = load;
  device = some plug;
  linked_asset = some plug_asset;
  candidate = none;
  endpoint_evidence = field "http_base_url" (text "http://plug/") end;
}

-- A relay that does not know the newer request and answers the second one.
abbrev send : HttpRequest ℤ → ℕ → Option ℕ × ℕ
send request zero = (some 404, 1)
send request (suc n) = (some 200, 2 + n)

asked_twice : shelly_request send "http://plug" (pos 0) (pos 2) true 0 ≡ (some 200, 2)
unfolding shelly_request
asked_twice = refl

dispatch_current_interval-KeepsWorld_example : KeepsWorld session (
    dispatch_current_interval telemetry_simulation
      (shelly_http_relay send ∷ [])
      false
      (load ∷ [])
      (switch_on ∷ [])
      "guarded_auto"
      150
      session)
dispatch_current_interval-KeepsWorld_example =
    dispatch_current_interval-KeepsWorld (shelly_http_relay send ∷ []) (load ∷ []) (switch_on ∷ [])
      "guarded_auto" 150 session

tasmota_apply-IsSwitched_example :
    IsSwitched
      (λ on. (tasmota_request send (base_url_of target) on 0).0)
      switch_on
      session
      (tasmota_apply send target switch_on session)
tasmota_apply-IsSwitched_example = tasmota_apply-IsSwitched send target switch_on session

shelly_apply-IsSwitched_example :
    IsSwitched
      (λ on. (shelly_request send (base_url_of target) (pos 0) (pos 2) on 0).0)
      switch_on
      session
      (shelly_apply send target switch_on session)
unfolding get_or evidence as_int update
shelly_apply-IsSwitched_example =
    shelly_apply-IsSwitched send target switch_on session (pos 0) (pos 2) refl refl
