-- ===== src/Hems/LoadControl/Deliveries/Reached.antt =====
-- The deliveries over time: created, updated, and moved on by the plans.
use helios_home.Prelude.{
  ℕ, ◌+◌, ◌-◌, ◌≤◌, ◌≡◌, refl, String, true, Option, none, some, List, [], ◌∷◌, ◌++◌, one_of,
  str_eq, truthy, length, length-append, length-drop, leb, arith, Bool-cases, inl, inr,
}
use helios_home.Prelude.Json.{Fields}
use helios_home.Hems.LoadControl.{Delivery, DeliveryUpdate, Limit}
use helios_home.Hems.LoadControl.Grid.{Participant}
use helios_home.Hems.LoadControl.Deliveries.{
  DispatchEvent, updated, last_twenty, updated_from_event, from_event, latest_event,
  waits_for_native, update_native_delivery_statuses_from_plan, created,
  create_load_control_deliveries, update_load_control_delivery_status,
}
use helios_home.Hems.LoadControl.Deliveries.Progress.{
  is_set, implies, IsConsistent, updated-IsConsistent, created-IsConsistent,
}

length-last_twenty_ge :
    {W : Type 0} (us : List (DeliveryUpdate W)) (u : DeliveryUpdate W)
    → 1 ≤ length (last_twenty (us ++ u ∷ []))
unfolding last_twenty
length-last_twenty_ge us u =
    omega
      (arith, length-append us (u ∷ []), length-drop (length (us ++ u ∷ []) - 20) (us ++ u ∷ []))

module _ {W : Type 0} where
  -- The delivery is consistent, and has a time only if it has a recorded update.
  pub record IsRecorded (d : Delivery W) : Type 0 where
    pub consistent : IsConsistent d
    pub sent_recorded : implies (is_set d.sent_at) (leb 1 (length d.updates)) ≡ true

  abbrev pub AreRecorded : List (Delivery W) → Type 0
  AreRecorded [] = Unit
  AreRecorded (d ∷ ds) = IsRecorded d × AreRecorded ds

  AreRecorded-append :
      (ds es : List (Delivery W)) → AreRecorded ds → AreRecorded es → AreRecorded (ds ++ es)
  AreRecorded-append [] es h k = k
  AreRecorded-append (d ∷ ds) es (near, far) k = (near, AreRecorded-append ds es far k)

  updated-IsRecorded :
      (status detail error : String) (raw_update : Fields W) (now : ℕ) (d : Delivery W)
      → IsRecorded d
      → IsRecorded (updated status detail error raw_update now d)
  unfolding updated
  updated-IsRecorded status detail error raw_update now d h =
      let new : DeliveryUpdate W = record {
        status = status;
        detail = detail;
        error = error;
        raw = raw_update;
        at = now;
      } in
      record {
        consistent = updated-IsConsistent status detail error raw_update now d h.consistent;
        sent_recorded = ground (arith, length-last_twenty_ge d.updates new);
      }

  created-IsRecorded :
      (fresh_id : String) (limit : Limit W) (p : Participant W)
      → IsRecorded (created fresh_id limit p)
  unfolding created
  created-IsRecorded fresh_id limit p = record {
    consistent = created-IsConsistent fresh_id limit p;
    sent_recorded = refl;
  }

  create-AreRecorded :
      (fresh : ℕ → String) (k : ℕ) (limit : Limit W) (ps : List (Participant W))
      → AreRecorded (create_load_control_deliveries fresh k limit ps)
  unfolding create_load_control_deliveries
  create-AreRecorded fresh k limit [] = tt
  create-AreRecorded fresh k limit (p ∷ ps) = elim (Bool-cases (truthy p.device_id)) [
    | inl named ↦
        rw named (created-IsRecorded (fresh k) limit p, create-AreRecorded fresh (1 + k) limit ps)
    | inr unnamed ↦ rw unnamed (create-AreRecorded fresh k limit ps)
  ]

  update-AreRecorded :
      (id status detail error : String) (raw_update : Fields W) (now : ℕ) (rows : List (Delivery W))
      → AreRecorded rows
      → AreRecorded
          (update_load_control_delivery_status id status detail error raw_update now rows).1
  unfolding update_load_control_delivery_status
  update-AreRecorded id status detail error raw_update now [] h = tt
  update-AreRecorded id status detail error raw_update now (d ∷ ds) (near, far) =
      elim (Bool-cases (str_eq d.id id)) [
        | inl this ↦ rw this (updated-IsRecorded status detail error raw_update now d near, far)
        | inr other ↦
            rw other (near, update-AreRecorded id status detail error raw_update now ds far)
      ]

  updated_from_event-IsRecorded :
      (now : ℕ) (event : DispatchEvent W) (d : Delivery W)
      → IsRecorded d
      → IsRecorded (updated_from_event now event d)
  unfolding updated_from_event
  updated_from_event-IsRecorded now event d h =
      elim (Bool-cases (one_of event.status ("applied" ∷ "simulated" ∷ []))) [
        | inl applied ↦ rw applied (updated-IsRecorded _ _ _ _ now d h)
        | inr n1 ↦ elim (Bool-cases (one_of event.status ("failed" ∷ "blocked" ∷ []))) [
          | inl failed ↦ rw (n1, failed) (updated-IsRecorded _ _ _ _ now d h)
          | inr n2 ↦ elim (Bool-cases (str_eq event.status "skipped")) [
            | inl skipped ↦ rw (n1, n2, skipped) (updated-IsRecorded _ _ _ _ now d h)
            | inr n3 ↦ rw (n1, n2, n3) h
          ]
        ]
      ]

  from_event-IsRecorded :
      (now : ℕ) (event : Option (DispatchEvent W)) (d : Delivery W)
      → IsRecorded d
      → IsRecorded (from_event now event d)
  from_event-IsRecorded now none d h = h
  from_event-IsRecorded now (some event) d h = updated_from_event-IsRecorded now event d h

  pass-AreRecorded :
      (now : ℕ) (events : List (DispatchEvent W)) (rows : List (Delivery W))
      → AreRecorded rows
      → AreRecorded (update_native_delivery_statuses_from_plan now events rows)
  unfolding update_native_delivery_statuses_from_plan
  pass-AreRecorded now events [] h = tt
  pass-AreRecorded now events (d ∷ ds) (near, far) = elim (Bool-cases (waits_for_native d)) [
    | inl waits ↦ rw waits (
      from_event-IsRecorded now (latest_event events d.target_device_id) d near,
      pass-AreRecorded now events ds far,
    )
    | inr other ↦ rw other (near, pass-AreRecorded now events ds far)
  ]

  -- What the program does to the table of deliveries: it creates those of a limit, updates one, or
  -- passes over the events of a plan.
  pub data Step : List (Delivery W) → List (Delivery W) → Type 0 where
    create :
        {rows : List (Delivery W)} (fresh : ℕ → String) (k : ℕ) (limit : Limit W)
        (participants : List (Participant W))
        → Step rows (rows ++ create_load_control_deliveries fresh k limit participants)
    report :
        {rows : List (Delivery W)} (delivery_id status detail error : String)
        (raw_update : Fields W) (now : ℕ)
        → Step rows
            (update_load_control_delivery_status delivery_id status detail error raw_update now
              rows).1
    plan :
        {rows : List (Delivery W)} (now : ℕ) (events : List (DispatchEvent W))
        → Step rows (update_native_delivery_statuses_from_plan now events rows)

  pub data Reach (rows : List (Delivery W)) : List (Delivery W) → Type 0 where
    here : Reach rows rows
    next : {s t : List (Delivery W)} → Reach rows s → Step s t → Reach rows t

  Step-AreRecorded : {s t : List (Delivery W)} → Step s t → AreRecorded s → AreRecorded t
  Step-AreRecorded (create {rows} fresh k limit ps) h =
      AreRecorded-append rows _ h (create-AreRecorded fresh k limit ps)
  Step-AreRecorded (report {rows} id status detail error raw_update now) h =
      update-AreRecorded id status detail error raw_update now rows h
  Step-AreRecorded (plan {rows} now events) h = pass-AreRecorded now events rows h

  -- However deliveries are created, updated with whatever status, and moved on by the events of plans,
  -- starting from a table in which it holds: a delivery that is acknowledged was sent, one that is read
  -- back was acknowledged, a sent, acknowledged or read back delivery has the time of it, no delivery has
  -- a time before an update of it is recorded, and at most 20 updates of it are kept.
  pub Reach-AreRecorded : (s t : List (Delivery W)) → Reach s t → AreRecorded s → AreRecorded t
  Reach-AreRecorded s t here h = h
  Reach-AreRecorded s t (next {s = u} reached step) h =
      Step-AreRecorded step (Reach-AreRecorded s u reached h)
