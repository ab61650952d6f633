-- ===== src/Hems/Writers/Relays/Acknowledged.antt =====
-- A relay counts as switched only when it has said so.
use helios_home.Prelude.{
  ◌≡◌, ◌⊎◌, refl, ℕ, String, Bool, false, Option, none, some, leb, ℤ, pos, Bool-cases, inl, inr,
  Result, ok, err, ◌>>=◌,
}
use helios_home.Prelude.Float.{Float}
use helios_home.Prelude.Json.{Fields, Repr, end, int, get_or}
use helios_home.Hems.Dispatcher.{Failure, PlannedInterval, DispatchOutcome, DispatchTarget, Session}
use helios_home.Hems.Dispatcher.Adapters.{evidence}
use helios_home.Hems.Writers.{coerce_binary_switch_state}
use helios_home.Hems.Writers.Relays.{
  HttpRequest, IntParser, as_int, answered_with, base_url_of, shelly_request, tasmota_request,
  shelly_switch, tasmota_switch, shelly_apply, tasmota_apply,
}

module _ {W X : Type 0} where
  -- The outcome is a failure, and no row has changed.
  abbrev pub IsUnapplied : Session W X → DispatchOutcome W × Session W X → Type 0
  IsUnapplied session (outcome, after) =
      (outcome.status ≡ "failed")
      × (outcome.applied_command ≡ end)
      × (after.devices ≡ session.devices)
      × (after.assets ≡ session.assets)

module _ {W : Type 0} where
  -- The command is applied, and what was sent was answered with a status below 400.
  abbrev pub IsApplied : PlannedInterval W → Option ℕ → DispatchOutcome W → Type 0
  IsApplied interval sent outcome =
      (status : ℕ) × (sent ≡ some status)
      × (leb 400 status ≡ false)
      × (outcome.status ≡ "applied")
      × (outcome.applied_command ≡ interval.command)

module _ {W X : Type 0} ⦃r : Repr W⦄ where
  answered_with-IsApplied :
      (name device api url : String) (details : Fields W) (target : DispatchTarget W)
      (interval : PlannedInterval W) (on : Bool) (sent : Option ℕ) (x : X) (session : Session W X)
      → (let done =
            answered_with name device api url details target interval on sent
              (record session { world = x }) in
          IsUnapplied session done ⊎ IsApplied interval sent done.0)
  unfolding answered_with
  answered_with-IsApplied name device api url details target interval on none x session =
      inl (refl, refl, refl, refl)
  answered_with-IsApplied name device api url details target interval on (some status) x session =
      elim (Bool-cases (leb 400 status)) [
        | inl refused ↦ rw refused (inl (refl, refl, refl, refl))
        | inr fine ↦ rw fine (inr (status, refl, fine, refl, refl))
      ]

module _ {W X : Type 0} ⦃fl : Float W⦄ ⦃r : Repr W⦄ where
  -- The command asks for a position of the switch, and the relay has answered the request for it.
  abbrev pub IsSwitched :
      (request : Bool → Option ℕ)
      → PlannedInterval W
      → Session W X
      → Result Failure (DispatchOutcome W × Session W X)
      → Type 0
  IsSwitched request interval session (err e) = Unit
  IsSwitched request interval session (ok done) =
      IsUnapplied session done
      ⊎ ((on : Bool) × (coerce_binary_switch_state interval ≡ ok (some on))
          × IsApplied interval (request on) done.0)

module _ {W X : Type 0} ⦃fl : Float W⦄ ⦃r : Repr W⦄ ⦃ip : IntParser⦄
    (send : HttpRequest W → X → Option ℕ × X) where
  tasmota_switch-IsSwitched :
      (target : DispatchTarget W) (interval : PlannedInterval W) (session : Session W X)
      (coerced : Result Failure (Option Bool))
      → coerce_binary_switch_state interval ≡ coerced
      → IsSwitched
          (λ on. (tasmota_request send (base_url_of target) on session.world).0)
          interval
          session
          (coerced >>= λ on. ok (tasmota_switch send target interval on session))
  unfolding tasmota_switch
  tasmota_switch-IsSwitched target interval session (err e) h = tt
  tasmota_switch-IsSwitched target interval session (ok none) h = inl (refl, refl, refl, refl)
  tasmota_switch-IsSwitched target interval session (ok (some on)) h =
      let sent = tasmota_request send (base_url_of target) on session.world in
      elim (answered_with-IsApplied "tasmota_http_power" "Tasmota" "Tasmota local power API"
        (base_url_of target) _ target interval on sent.0 sent.1 session) [
          | inl unapplied ↦ inl unapplied
          | inr applied ↦ inr (on, h, applied)
        ]

  -- The Tasmota adapter, where it does not raise, reports a failure and changes no row, or it reports
  -- the whole command as applied: then the command asks for a position of the switch, and the relay
  -- has answered the request for that position with a status below 400.
  pub tasmota_apply-IsSwitched :
      (target : DispatchTarget W) (interval : PlannedInterval W) (session : Session W X)
      → IsSwitched
          (λ on. (tasmota_request send (base_url_of target) on session.world).0)
          interval
          session
          (tasmota_apply send target interval session)
  unfolding tasmota_apply
  tasmota_apply-IsSwitched target interval session =
      tasmota_switch-IsSwitched target interval session (coerce_binary_switch_state interval) refl

  shelly_switch-IsSwitched :
      (target : DispatchTarget W) (interval : PlannedInterval W) (session : Session W X)
      (channel generation : ℤ) (coerced : Result Failure (Option Bool))
      → as_int (get_or (evidence target) "dispatch_channel" (int (pos 0))) ≡ ok channel
      → as_int (get_or (evidence target) "dispatch_generation" (int (pos 2))) ≡ ok generation
      → coerce_binary_switch_state interval ≡ coerced
      → IsSwitched
          (λ on. (shelly_request send (base_url_of target) channel generation on session.world).0)
          interval
          session
          (coerced >>= λ on. shelly_switch send target interval on session)
  unfolding shelly_switch
  shelly_switch-IsSwitched target interval session channel generation (err e) c g h = tt
  shelly_switch-IsSwitched target interval session channel generation (ok none) c g h =
      inl (refl, refl, refl, refl)
  shelly_switch-IsSwitched target interval session channel generation (ok (some on)) c g h =
      let sent = shelly_request send (base_url_of target) channel generation on session.world in
      rw (c, g)
        (elim (answered_with-IsApplied "shelly_http_relay" "Shelly" "Shelly local relay API"
          (base_url_of target) _ target interval on sent.0 sent.1 session) [
            | inl unapplied ↦ inl unapplied
            | inr applied ↦ inr (on, h, applied)
          ])

  -- The Shelly adapter, for a channel and a generation that are whole numbers, where it does not raise,
  -- reports a failure and changes no row, or it reports the whole command as applied: then the command
  -- asks for a position of the switch, and the last response to the request for that position has a
  -- status below 400.
  pub shelly_apply-IsSwitched :
      (target : DispatchTarget W) (interval : PlannedInterval W) (session : Session W X)
      (channel generation : ℤ)
      → as_int (get_or (evidence target) "dispatch_channel" (int (pos 0))) ≡ ok channel
      → as_int (get_or (evidence target) "dispatch_generation" (int (pos 2))) ≡ ok generation
      → IsSwitched
          (λ on. (shelly_request send (base_url_of target) channel generation on session.world).0)
          interval
          session
          (shelly_apply send target interval session)
  unfolding shelly_apply
  shelly_apply-IsSwitched target interval session channel generation c g =
      shelly_switch-IsSwitched target interval session channel generation
        (coerce_binary_switch_state interval) c g refl
