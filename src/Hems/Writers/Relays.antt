-- ===== src/Hems/Writers/Relays.antt =====
-- hems/write_adapters.py: `ShellyHttpRelayAdapter` and `TasmotaHttpPowerAdapter`. What a request is
-- answered, the status of the response or nothing where httpx raises an HTTPError, is a parameter.
pub mod Acknowledged
use Prim.Native.Char.{Char, code}
use helios_home.Prelude.{
  ℕ, String, Bool, true, false, not, ◌&&◌, ◌||◌, Option, none, some, List, [], ◌∷◌, str_eq, truthy,
  formatted, ℤ, pos, negsuc, leb_ℤ, leb, ◌==◌, if◌then◌else◌, Result, ok, err, ◌>>=◌,
}
use helios_home.Prelude.Float.{Float}
use helios_home.Prelude.Json.{
  Json, Fields, null, bool, int, real, text, list, dict, end, field, get, get_or, put, Repr,
  as_text, as_bool,
}
use helios_home.Hems.Models.{Device}
use helios_home.Hems.Dispatcher.{
  Failure, PlannedInterval, DispatchOutcome, LinkedAsset, DispatchTarget, Session, WriteAdapter,
}
use helios_home.Hems.Dispatcher.Adapters.{evidence}
use helios_home.Hems.Writers.{coerce_binary_switch_state, stored}
use helios_home.Hems.Writers.Simulation.{noted}

pub record HttpRequest (W : Type 0) : Type 0 where
  pub method : String
  pub url : String
  -- the body, or the parameters of the query
  pub arguments : Fields W

-- `int(text)`: `none` where it raises `ValueError`
pub record IntParser : Type 0 where
  pub parse_int : String → Option ℤ

abbrev is_slash : Char → Bool
is_slash c = code c == 47

-- `s.rstrip("/")`
unfoldable pub rstrip_slash : String → String
rstrip_slash String.[] = String.[]
rstrip_slash (String.◌∷◌ c s) =
    let rest = rstrip_slash s in
    if is_slash c && not (truthy rest) then String.[] else String.◌∷◌ c rest

module _ {W : Type 0} ⦃fl : Float W⦄ ⦃ip : IntParser⦄ where
  -- `int(value)`
  unfoldable pub as_int : Json W → Result Failure ℤ
  as_int null = err Failure.type_error
  as_int (bool true) = ok (pos 1)
  as_int (bool false) = ok (pos 0)
  as_int (int n) = ok n
  as_int (real x) = if fl.is_finite x then ok (fl.trunc x) else err Failure.value_error
  as_int (text s) = elim (ip.parse_int s) [ none ↦ err Failure.value_error | some n ↦ ok n ]
  as_int (list _) = err Failure.type_error
  as_int (dict _) = err Failure.type_error

module _ {W : Type 0} where
  -- Every item is put into both rows, under its key behind the prefix.
  noted_each : String → Fields W → Device W × LinkedAsset W → Device W × LinkedAsset W
  unfolding put formatted
  noted_each prefix end rows = rows
  noted_each prefix (field key value rest) rows =
      noted_each prefix rest (noted (formatted (prefix ∷ key ∷ [])) value rows)

  switch_noted : Option Bool → Device W × LinkedAsset W → Device W × LinkedAsset W
  unfolding put
  switch_noted none rows = rows
  switch_noted (some on) rows = noted "relay_output_on" (bool on) rows

module _ {W X : Type 0} where
  -- `_update_applied_state`
  unfoldable pub update_applied_state :
      DispatchTarget W
      → (applied_command : Fields W) (adapter_name : String) (on : Option Bool)
        (extra_metrics : Fields W)
      → Session W X
      → Session W X
  unfolding stored noted_each switch_noted put
  update_applied_state target applied name on extra session =
      changed target.device target.linked_asset
    where
      changed : Option (Device W) → Option (LinkedAsset W) → Session W X
      changed (some d) (some a) =
          let rows = noted_each "" extra (
            noted_each "last_" applied
              (switch_noted on (noted "last_dispatch_adapter" (text name) (d, a)))) in
          stored rows.0 rows.1 session
      changed _ _ = session

module _ {W : Type 0} where
  abbrev unapplied : PlannedInterval W → String → Fields W → DispatchOutcome W
  unapplied interval summary details = record {
    status = "failed";
    requested_command = interval.command;
    applied_command = end;
    summary = summary;
    details = details;
  }

module _ {W X : Type 0} ⦃r : Repr W⦄ where
  -- What the status of the last response makes of the command; `device` is how the summaries call it.
  unfoldable pub answered_with :
      (adapter_name device api base_url : String) (details : Fields W)
      → DispatchTarget W
      → PlannedInterval W
      → Bool
      → Option ℕ
      → Session W X
      → DispatchOutcome W × Session W X
  unfolding update_applied_state formatted
  answered_with name device api base_url details target interval on none session = (
    unapplied interval (formatted (device ∷ " write request failed" ∷ []))
        (field "adapter" (text name) (field "base_url" (text base_url) end)),
    session,
  )
  answered_with name device api base_url details target interval on (some status) session =
      if leb 400 status
      then (
        unapplied interval
            (formatted (
              device
              ∷ " write request returned HTTP "
              ∷ as_text {W = W} (int (pos status))
              ∷ "."
              ∷ []))
            (field "adapter" (text name) (field "base_url" (text base_url) end)),
        session,
      )
      else (
        record {
          status = "applied";
          requested_command = interval.command;
          applied_command = interval.command;
          summary = formatted ("Applied the command through the " ∷ api ∷ "." ∷ []);
          details = details;
        },
        update_applied_state target interval.command name (some on) end session,
      )

module _ {W : Type 0} ⦃fl : Float W⦄ where
  -- The `supports` of both.
  abbrev http_supports : String → DispatchTarget W → PlannedInterval W → Bool
  http_supports name target interval =
      is_text name (get (evidence target) "dispatch_profile")
      && as_bool (get (evidence target) "http_base_url")
    where
      is_text : String → Json W → Bool
      is_text wanted (text s) = str_eq s wanted
      is_text wanted _ = false

module _ {W : Type 0} ⦃r : Repr W⦄ ⦃fl : Float W⦄ where
  abbrev pub base_url_of : DispatchTarget W → String
  base_url_of target =
      rstrip_slash (as_text {W = W} (get_or (evidence target) "http_base_url" (text "")))

module _ {W X : Type 0} ⦃fl : Float W⦄ ⦃r : Repr W⦄ ⦃ip : IntParser⦄
    (send : HttpRequest W → X → Option ℕ × X) where
  -- The second request of a newer device, where the first is not known to it.
  retried : HttpRequest W → Option ℕ × X → Option ℕ × X
  retried again (none, x) = (none, x)
  retried again (some status, x) =
      if (status == 404) || (status == 405) then send again x else (some status, x)

  unfoldable pub shelly_request :
      (base_url : String) (channel generation : ℤ) (on : Bool) → X → Option ℕ × X
  unfolding retried formatted
  shelly_request base_url channel generation on x =
      if leb_ℤ (pos 2) generation
      then retried
          (record {
            method = "GET";
            url = formatted (base_url ∷ "/rpc/Switch.Set" ∷ []);
            arguments =
                field "id" (int channel) (field "on" (text (if on then "true" else "false")) end);
          })
          (send
            (record {
              method = "POST";
              url = formatted (base_url ∷ "/rpc/Switch.Set" ∷ []);
              arguments = field "id" (int channel) (field "on" (bool on) end);
            })
            x)
      else send
          (record {
            method = "GET";
            url = formatted (base_url ∷ "/relay/" ∷ as_text {W = W} (int channel) ∷ []);
            arguments = field "turn" (text (if on then "on" else "off")) end;
          })
          x

  unfoldable pub tasmota_request : (base_url : String) (on : Bool) → X → Option ℕ × X
  unfolding formatted
  tasmota_request base_url on x =
      send
        (record {
          method = "GET";
          url = formatted (base_url ∷ "/cm" ∷ []);
          arguments = field "cmnd" (text (if on then "Power On" else "Power Off")) end;
        })
        x

  unfoldable pub shelly_switch :
      DispatchTarget W
      → PlannedInterval W
      → Option Bool
      → Session W X
      → Result Failure (DispatchOutcome W × Session W X)
  unfolding answered_with shelly_request rstrip_slash as_int evidence get_or
  shelly_switch target interval none session = ok (
    unapplied interval "The Shelly relay adapter only supports binary switch commands."
        (field "adapter" (text "shelly_http_relay") end),
    session,
  )
  shelly_switch target interval (some on) session =
      as_int (get_or (evidence target) "dispatch_channel" (int (pos 0))) >>= λ channel.
      as_int (get_or (evidence target) "dispatch_generation" (int (pos 2))) >>= λ generation.
      let url = base_url_of target in
      let sent = shelly_request url channel generation on session.world in
      ok (
        answered_with "shelly_http_relay" "Shelly" "Shelly local relay API" url
          (field "adapter" (text "shelly_http_relay") (
            field "base_url" (text url) (
              field "dispatch_generation" (int generation)
                (field "dispatch_channel" (int channel) end))))
          target interval on sent.0 (record session { world = sent.1 }))

  -- `ShellyHttpRelayAdapter.apply`
  unfoldable pub shelly_apply :
      DispatchTarget W
      → PlannedInterval W
      → Session W X
      → Result Failure (DispatchOutcome W × Session W X)
  unfolding coerce_binary_switch_state shelly_switch
  shelly_apply target interval session =
      coerce_binary_switch_state interval >>= λ on. shelly_switch target interval on session

  unfoldable pub tasmota_switch :
      DispatchTarget W
      → PlannedInterval W
      → Option Bool
      → Session W X
      → DispatchOutcome W × Session W X
  unfolding answered_with tasmota_request rstrip_slash evidence get_or
  tasmota_switch target interval none session = (
    unapplied interval "The Tasmota power adapter only supports binary switch commands."
        (field "adapter" (text "tasmota_http_power") end),
    session,
  )
  tasmota_switch target interval (some on) session =
      let url = base_url_of target in
      let sent = tasmota_request url on session.world in
      answered_with "tasmota_http_power" "Tasmota" "Tasmota local power API" url
        (field "adapter" (text "tasmota_http_power") (field "base_url" (text url) end)) target
        interval on sent.0 (record session { world = sent.1 })

  -- `TasmotaHttpPowerAdapter.apply`
  unfoldable pub tasmota_apply :
      DispatchTarget W
      → PlannedInterval W
      → Session W X
      → Result Failure (DispatchOutcome W × Session W X)
  unfolding coerce_binary_switch_state tasmota_switch
  tasmota_apply target interval session =
      coerce_binary_switch_state interval >>= λ on. ok (tasmota_switch target interval on session)

  abbrev pub shelly_http_relay : WriteAdapter W X
  shelly_http_relay = record {
    adapter_name = "shelly_http_relay";
    supports = http_supports "shelly_http_relay";
    apply = shelly_apply;
  }

  abbrev pub tasmota_http_power : WriteAdapter W X
  tasmota_http_power = record {
    adapter_name = "tasmota_http_power";
    supports = http_supports "tasmota_http_power";
    apply = tasmota_apply;
  }
