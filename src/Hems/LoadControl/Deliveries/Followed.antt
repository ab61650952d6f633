-- ===== src/Hems/LoadControl/Deliveries/Followed.antt =====
-- What the pass over a plan's dispatch events makes of each delivery.
use helios_home.Prelude.{
  ℕ, ◌≡◌, ◌⊎◌, ap, refl, String, Bool, true, false, not, ◌&&◌, Option, none, some, List, [], ◌∷◌,
  ◌++◌, one_of, str_eq, truthy, if◌then◌else◌, arith, Bool-cases, inl, inr,
}
use helios_home.Hems.LoadControl.{Delivery}
use helios_home.Hems.LoadControl.Deliveries.{
  DispatchEvent, if_missing, updated, latest_event, updated_from_event, from_event,
  waits_for_native, update_native_delivery_statuses_from_plan,
}
use helios_home.Hems.LoadControl.Deliveries.Progress.{is_set}

if_missing-set : (now : ℕ) (t : Option ℕ) → is_set (if_missing true now t) ≡ true
if_missing-set now none = refl
if_missing-set now (some t) = refl

if_missing-same : (now : ℕ) (t : Option ℕ) → if_missing false now t ≡ t
if_missing-same now none = refl
if_missing-same now (some t) = refl

module _ {W : Type 0} where
  abbrev is_of : String → DispatchEvent W → Bool
  is_of device_id event = truthy event.device_id && str_eq event.device_id device_id

  -- No event of the list is of the device.
  abbrev pub IsAbsent : String → List (DispatchEvent W) → Type 0
  IsAbsent device_id [] = Unit
  IsAbsent device_id (event ∷ events) = (is_of device_id event ≡ false) × IsAbsent device_id events

  -- The event is of the device, and none that comes after it is.
  abbrev pub IsLatest : List (DispatchEvent W) → String → DispatchEvent W → Type 0
  IsLatest events device_id event =
      (before : List (DispatchEvent W)) × (after : List (DispatchEvent W)) × (events
        ≡ before ++ event ∷ after)
      × (is_of device_id event ≡ true)
      × IsAbsent device_id after

  abbrev AreSearched : List (DispatchEvent W) → String → Option (DispatchEvent W) → Type 0
  AreSearched events device_id none = IsAbsent device_id events
  AreSearched events device_id (some event) = IsLatest events device_id event

  searched_before :
      (device_id : String) (event : DispatchEvent W) (events : List (DispatchEvent W))
      (found : Option (DispatchEvent W))
      → AreSearched events device_id found
      → AreSearched (event ∷ events) device_id (elim found [
        | some later ↦ some later
        | none ↦ if is_of device_id event then some event else none
      ])
  searched_before device_id event events (some later) (before, after, split, own, absent) =
      (event ∷ before, after, ap (λ l. event ∷ l) split, own, absent)
  searched_before device_id event events none absent = elim (Bool-cases (is_of device_id event)) [
    | inl own ↦ rw own ([], events, refl, own, absent)
    | inr other ↦ rw other (other, absent)
  ]

  latest_event-AreSearched :
      (events : List (DispatchEvent W)) (device_id : String)
      → AreSearched events device_id (latest_event events device_id)
  unfolding latest_event
  latest_event-AreSearched [] device_id = tt
  latest_event-AreSearched (event ∷ events) device_id =
      searched_before device_id event events (latest_event events device_id)
        (latest_event-AreSearched events device_id)

  -- The times of the delivery are as they were.
  abbrev HaveSameTimes : Delivery W → Delivery W → Type 0
  HaveSameTimes d d' =
      (d'.sent_at ≡ d.sent_at)
      × (d'.acknowledged_at ≡ d.acknowledged_at)
      × (d'.readback_at ≡ d.readback_at)

  -- What the event says has become of the delivery.
  abbrev pub Follows : DispatchEvent W → Delivery W → Delivery W → Type 0
  Follows event d d' =
      ((one_of event.status ("applied" ∷ "simulated" ∷ []) ≡ true)
        × (d'.status ≡ "acknowledged")
        × (is_set d'.sent_at ≡ true)
        × (is_set d'.acknowledged_at ≡ true)
        × (d'.readback_at ≡ d.readback_at)
        × (d'.last_error ≡ ""))
      ⊎ (((one_of event.status ("failed" ∷ "blocked" ∷ []) ≡ true)
            × (d'.status ≡ "failed")
            × HaveSameTimes d d'
            × (d'.last_error ≡ (if truthy event.summary then event.summary else d.last_error)))
          ⊎ (((str_eq event.status "skipped" ≡ true)
                × (d'.status ≡ "not_deliverable")
                × HaveSameTimes d d'
                × (d'.last_error ≡ d.last_error))
              ⊎ ((one_of event.status
                      ("applied" ∷ "simulated" ∷ "failed" ∷ "blocked" ∷ "skipped" ∷ [])
                    ≡ false)
                  × (d' ≡ d))))

  updated_from_event-Follows :
      (now : ℕ) (event : DispatchEvent W) (d : Delivery W)
      → Follows event d (updated_from_event now event d)
  unfolding updated_from_event updated
  updated_from_event-Follows now event d =
      elim (Bool-cases (one_of event.status ("applied" ∷ "simulated" ∷ []))) [
        | inl applied ↦ rw applied (
            inl (
              refl,
              refl,
              if_missing-set now d.sent_at,
              if_missing-set now d.acknowledged_at,
              refl,
              refl,
            ))
        | inr n1 ↦ elim (Bool-cases (one_of event.status ("failed" ∷ "blocked" ∷ []))) [
          | inl failed ↦ rw (n1, failed) (inr (inl (refl, refl, same, refl)))
          | inr n2 ↦ elim (Bool-cases (str_eq event.status "skipped")) [
            | inl skipped ↦ rw (n1, n2, skipped) (inr (inr (inl (refl, refl, same, refl))))
            | inr n3 ↦ rw (n1, n2, n3) (inr (inr (inr (ground (arith, n1, n2, n3), refl))))
          ]
        ]
      ]
    where
      same :
          (if_missing false now d.sent_at ≡ d.sent_at)
          × (if_missing false now d.acknowledged_at ≡ d.acknowledged_at)
          × (d.readback_at ≡ d.readback_at)
      same = (if_missing-same now d.sent_at, if_missing-same now d.acknowledged_at, refl)

  -- Whether the delivery is pending and goes the native way: to no EEBUS peer.
  abbrev pub is_native : Delivery W → Bool
  is_native d =
      str_eq d.status "pending"
      && (not (truthy d.target_peer_ski) && not (str_eq d.control_path "eebus_spine"))

  -- What has become of the delivery after the events.
  abbrev pub IsFollowed : List (DispatchEvent W) → Delivery W → Delivery W → Type 0
  IsFollowed events d d' =
      ((is_native d ≡ false) × (d' ≡ d))
      ⊎ ((is_native d ≡ true)
          × ((IsAbsent d.target_device_id events × (d' ≡ d))
              ⊎ ((event : DispatchEvent W) × IsLatest events d.target_device_id event
                  × Follows event d d')))

  abbrev pub AreFollowed : List (DispatchEvent W) → List (Delivery W) → List (Delivery W) → Type 0
  AreFollowed events [] [] = Unit
  AreFollowed events (d ∷ ds) (d' ∷ ds') = IsFollowed events d d' × AreFollowed events ds ds'
  AreFollowed events _ _ = false ≡ true

  from_event-IsFollowed :
      (now : ℕ) (events : List (DispatchEvent W)) (d : Delivery W)
      (found : Option (DispatchEvent W))
      → AreSearched events d.target_device_id found
      → is_native d ≡ true
      → IsFollowed events d (from_event now found d)
  from_event-IsFollowed now events d none absent native = inr (native, inl (absent, refl))
  from_event-IsFollowed now events d (some event) latest native =
      inr (native, inr (event, latest, updated_from_event-Follows now event d))

  -- The pass over a plan's dispatch events leaves each delivery that is not pending, or that goes to an
  -- EEBUS peer, as it is, and so each whose device has no event. Else it follows the last event of the
  -- device: acknowledged, with the times of sending and acknowledging and no error, where the event is
  -- applied or simulated; failed, with the event's summary, if any, as the error and no time changed,
  -- where it is failed or blocked; not deliverable, with no time changed, where it is skipped; and as it
  -- was for every other event.
  pub update_native_delivery_statuses_from_plan-AreFollowed :
      (now : ℕ) (events : List (DispatchEvent W)) (rows : List (Delivery W))
      → AreFollowed events rows (update_native_delivery_statuses_from_plan now events rows)
  unfolding update_native_delivery_statuses_from_plan
  update_native_delivery_statuses_from_plan-AreFollowed now events [] = tt
  update_native_delivery_statuses_from_plan-AreFollowed now events (d ∷ ds) =
      let rest = update_native_delivery_statuses_from_plan-AreFollowed now events ds in
      elim (Bool-cases (waits_for_native d)) [
        | inl waits ↦ rw waits (
          from_event-IsFollowed now events d (latest_event events d.target_device_id)
              (latest_event-AreSearched events d.target_device_id) (ground (arith, waits)),
          rest,
        )
        | inr other ↦ rw other (inl (ground (arith, other), refl), rest)
      ]
