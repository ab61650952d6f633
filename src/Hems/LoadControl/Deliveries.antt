-- ===== src/Hems/LoadControl/Deliveries.antt =====
-- hems/load_control.py: the deliveries of a limit to its participants, and what becomes of them.
pub mod Creation
pub mod Progress
pub mod Followed
pub mod Reached
use helios_home.Prelude.{
  ℕ, ◌+◌, ◌-◌, String, Bool, true, false, not, ◌&&◌, ◌||◌, Option, none, some, List, [], ◌∷◌, ◌++◌,
  one_of, str_eq, strip, lower, truthy, ℤ, pos, negsuc, if◌then◌else◌, leb_ℤ, length, drop,
}
use helios_home.Prelude.Json.{Fields, Json}
use helios_home.Prelude.Json as J
use helios_home.Hems.LoadControl.{Limit, Delivery, DeliveryUpdate}
use helios_home.Hems.LoadControl.Grid.{Participant}

-- An event of a plan's dispatch.
pub record DispatchEvent (W : Type 0) : Type 0 where
  pub device_id : String
  pub status : String
  pub summary : String
  pub details : Fields W

abbrev if_missing : Bool → ℕ → Option ℕ → Option ℕ
if_missing applies now none = if applies then some now else none
if_missing applies now (some t) = some t

abbrev text_or : String → String → String
text_or s other = if truthy s then s else other

module _ {W : Type 0} where
  -- The status and the detail that a participant's delivery starts with.
  unfoldable pub initial_status : Participant W → String × String
  initial_status participant =
      let target_peer_ski = lower (strip participant.target_peer_ski) in
      if leb_ℤ participant.allocated_limit_watts (pos 0)
      then ("skipped_zero_allocation", "No power was allocated to this participant.")
      else if truthy participant.target_endpoint_ref && truthy target_peer_ski
      then ("pending", "Allocated and waiting for EEBUS delivery.")
      else if truthy participant.target_endpoint_ref && truthy participant.control_path
      then ("pending", "Allocated and waiting for native HEMS dispatch.")
      else (
        "not_deliverable",
        "Allocated locally, but no validated control endpoint is configured for this participant.",
      )

  -- One round of the loop of `create_load_control_deliveries`.
  unfoldable pub created : String → Limit W → Participant W → Delivery W
  unfolding initial_status
  created fresh_id limit participant = record {
    id = fresh_id;
    site_id = limit.site_id;
    constraint_id = limit.id;
    source_peer_ski = limit.peer_ski;
    target_device_id = participant.device_id;
    target_endpoint_ref = participant.target_endpoint_ref;
    target_peer_ski = lower (strip participant.target_peer_ski);
    use_case = limit.use_case;
    limit_id = limit.limit_id;
    limit_watts = limit.limit_watts;
    allocated_limit_watts = participant.allocated_limit_watts;
    duration_seconds = limit.duration_seconds;
    is_active = limit.is_active;
    status = (initial_status participant).0;
    detail = (initial_status participant).1;
    last_error = "";
    control_path = participant.control_path;
    updates = [];
    requested_at = limit.received_at;
    sent_at = none;
    acknowledged_at = none;
    readback_at = none;
    updated_at = limit.received_at;
  }

  -- `create_load_control_deliveries`; `fresh` gives the identifiers that are drawn, in turn.
  unfoldable pub create_load_control_deliveries :
      (ℕ → String) → ℕ → Limit W → List (Participant W) → List (Delivery W)
  unfolding created
  create_load_control_deliveries fresh k limit [] = []
  create_load_control_deliveries fresh k limit (participant ∷ participants) =
      let rest = create_load_control_deliveries fresh k limit participants in
      let later = create_load_control_deliveries fresh (1 + k) limit participants in
      if truthy participant.device_id then created (fresh k) limit participant ∷ later else rest

  -- `updates[-20:]`
  unfoldable pub last_twenty : List (DeliveryUpdate W) → List (DeliveryUpdate W)
  last_twenty updates = drop (length updates - 20) updates

  -- What `update_load_control_delivery_status` makes of the row.
  unfoldable pub updated :
      (status detail error : String) (raw_update : Fields W) (now : ℕ) → Delivery W → Delivery W
  unfolding last_twenty
  updated status detail error raw_update now delivery =
      let acknowledges = one_of status ("acknowledged" ∷ "readback_confirmed" ∷ []) in
      let sends = one_of status ("sent" ∷ "acknowledged" ∷ "readback_confirmed" ∷ []) in
      record delivery {
        status = status;
        detail = if truthy detail then detail else delivery.detail;
        last_error =
            if truthy error
            then error
            else if one_of status ("pending" ∷ "sent" ∷ "acknowledged" ∷ "readback_confirmed" ∷ [])
            then ""
            else delivery.last_error;
        updated_at = now;
        sent_at = if_missing sends now delivery.sent_at;
        acknowledged_at = if_missing acknowledges now delivery.acknowledged_at;
        readback_at = if str_eq status "readback_confirmed" then some now else delivery.readback_at;
        updates = last_twenty (
            delivery.updates
            ++ record {
              status = status;
              detail = detail;
              error = error;
              raw = raw_update;
              at = now;
            }
              ∷ []);
      }

  -- `session.get` by the primary key, and the row that is stored again.
  unfoldable pub update_load_control_delivery_status :
      (delivery_id status detail error : String) (raw_update : Fields W) (now : ℕ)
      → List (Delivery W)
      → Option (Delivery W) × List (Delivery W)
  unfolding updated
  update_load_control_delivery_status delivery_id status detail error raw_update now [] = (none, [])
  update_load_control_delivery_status delivery_id status detail error raw_update now
        (delivery ∷ rest) =
      let new = updated status detail error raw_update now delivery in
      let below =
        update_load_control_delivery_status delivery_id status detail error raw_update now rest in
      if str_eq delivery.id delivery_id
      then (some new, new ∷ rest)
      else (below.0, delivery ∷ below.1)

  -- `latest_event_by_device.get(device_id)`: the last event of the device.
  unfoldable pub latest_event : List (DispatchEvent W) → String → Option (DispatchEvent W)
  latest_event [] device_id = none
  latest_event (event ∷ events) device_id = elim (latest_event events device_id) [
    | some later ↦ some later
    | none ↦ if truthy event.device_id && str_eq event.device_id device_id then some event else none
  ]

  -- One round of the loop of `update_native_delivery_statuses_from_plan`, on the row itself.
  unfoldable pub updated_from_event : ℕ → DispatchEvent W → Delivery W → Delivery W
  unfolding updated
  updated_from_event now event delivery =
      let raw_update =
        J.field "dispatch_event" (J.dict event.details)
          (J.field "dispatch_status" (J.text event.status) J.end) in
      if one_of event.status ("applied" ∷ "simulated" ∷ [])
      then updated "acknowledged"
          (text_or event.summary "Native HEMS dispatch applied the allocation.") "" raw_update now
          delivery
      else if one_of event.status ("failed" ∷ "blocked" ∷ [])
      then updated "failed"
          (text_or event.summary "Native HEMS dispatch could not apply the allocation.")
          event.summary raw_update now delivery
      else if str_eq event.status "skipped"
      then updated "not_deliverable"
          (text_or event.summary "Native HEMS dispatch skipped the allocation.") "" raw_update now
          delivery
      else delivery

  abbrev pub from_event : ℕ → Option (DispatchEvent W) → Delivery W → Delivery W
  from_event now none delivery = delivery
  from_event now (some event) delivery = updated_from_event now event delivery

  abbrev pub waits_for_native : Delivery W → Bool
  waits_for_native delivery =
      not (truthy delivery.target_peer_ski || str_eq delivery.control_path "eebus_spine")
      && str_eq delivery.status "pending"

  unfoldable pub update_native_delivery_statuses_from_plan :
      ℕ → List (DispatchEvent W) → List (Delivery W) → List (Delivery W)
  unfolding latest_event updated_from_event
  update_native_delivery_statuses_from_plan now events [] = []
  update_native_delivery_statuses_from_plan now events (delivery ∷ rest) =
      (if waits_for_native delivery
        then from_event now (latest_event events delivery.target_device_id) delivery
        else delivery)
      ∷ update_native_delivery_statuses_from_plan now events rest
