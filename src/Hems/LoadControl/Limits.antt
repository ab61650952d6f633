-- ===== src/Hems/LoadControl/Limits.antt =====
-- hems/load_control.py: recording a limit, and the limits that are active.
pub mod Active
pub mod Recorded
use helios_home.Prelude.{
  ℕ, ◌+◌, ◌-◌, ◌*◌, String, Bool, true, false, not, ◌&&◌, ◌||◌, Option, none, some, List, [], ◌∷◌,
  ◌++◌, map, one_of, str_eq, strip, lower, truthy, ℤ, pos, if◌then◌else◌, leb, leb_ℤ, ◌==◌, length,
  drop, Result, ok, err,
}
use helios_home.Prelude.Json.{Fields, end}
use helios_home.Prelude.Sort.{sort_by}
use helios_home.Hems.Models.{Device}
use helios_home.Hems.LoadControl.{Limit, DeviceConfig, LimitTables, lpc_use_case}

-- `now + timedelta(seconds=duration_seconds) if is_active and duration_seconds else None`
abbrev expiry : ℕ → Bool → Option ℕ → Option ℕ
expiry now false duration = none
expiry now true none = none
expiry now true (some seconds) = if seconds == 0 then none else some (now + seconds * 1000000)

abbrev text_or_empty : Option String → String
text_or_empty none = ""
text_or_empty (some s) = s

module _ {W : Type 0} where
  -- The rows that the `select` of `record_load_control_limit` finds.
  abbrev pub same_limit : ℕ → String → ℕ → String → Limit W → Bool
  same_limit site_id use_case limit_id peer_ski row =
      (row.site_id == site_id)
      && (str_eq row.use_case use_case
          && ((row.limit_id == limit_id) && str_eq row.peer_ski peer_ski))

  unfoldable pub deactivate_same : ℕ → String → ℕ → String → List (Limit W) → List (Limit W)
  deactivate_same site_id use_case limit_id peer_ski [] = []
  deactivate_same site_id use_case limit_id peer_ski (row ∷ rows) =
      (if same_limit site_id use_case limit_id peer_ski row && row.is_active
        then record row { is_active = false }
        else row)
      ∷ deactivate_same site_id use_case limit_id peer_ski rows

  -- Which configured devices `_touch_load_control_devices` visits.
  abbrev concerned : ℕ → String → DeviceConfig W → Bool
  concerned site_id use_case config =
      (config.site_id == site_id)
      && (if str_eq use_case lpc_use_case
          then config.receives_lpc || config.participates_lpc
          else config.receives_lpp || config.participates_lpp)

  touch_device : String → ℕ → List (Device W) → List (Device W)
  touch_device device_id now [] = []
  touch_device device_id now (d ∷ ds) =
      (if str_eq d.id device_id then record d { last_seen_at = now } else d)
      ∷ touch_device device_id now ds

  unfoldable pub touch_load_control_devices :
      ℕ → String → ℕ → List (DeviceConfig W) → List (Device W) → List (Device W)
  unfolding touch_device
  touch_load_control_devices site_id use_case now [] devices = devices
  touch_load_control_devices site_id use_case now (config ∷ configs) devices =
      touch_load_control_devices site_id use_case now configs (
        if concerned site_id use_case config
        then touch_device config.device_id now devices
        else devices)

  -- `record_load_control_limit`; `fresh_id` is the identifier that is drawn, `now` the clock.
  unfoldable pub record_load_control_limit :
      (fresh_id : String) (now site_id : ℕ) (use_case : String) (limit_id : ℕ)
      (direction source : String) (peer_ski : Option String) (limit_watts : ℤ)
      (duration_seconds : Option ℕ) (is_active : Bool) (raw : Fields W)
      → LimitTables W
      → Limit W × LimitTables W
  unfolding deactivate_same touch_load_control_devices
  record_load_control_limit fresh_id now site_id use_case limit_id direction source peer_ski
        limit_watts duration_seconds is_active raw t =
      let normalized_peer_ski = lower (strip (text_or_empty peer_ski)) in
      let limit : Limit W = record {
        id = fresh_id;
        site_id = site_id;
        use_case = use_case;
        limit_id = limit_id;
        direction = direction;
        source = source;
        peer_ski = normalized_peer_ski;
        limit_watts = limit_watts;
        duration_seconds = duration_seconds;
        is_active = is_active;
        raw = raw;
        received_at = now;
        expires_at = expiry now is_active duration_seconds;
      } in
      (
        limit,
        record {
          limits =
              deactivate_same site_id use_case limit_id normalized_peer_ski t.limits ++ limit ∷ [];
          configs = t.configs;
          devices = touch_load_control_devices site_id use_case now t.configs t.devices;
        },
      )

  -- `active_load_control_limits`
  abbrev pub is_expired : ℕ → Limit W → Bool
  is_expired now row = elim row.expires_at [ none ↦ false | some t ↦ leb t now ]

  abbrev pub same_key : Limit W → Limit W → Bool
  same_key a b =
      str_eq a.use_case b.use_case && ((a.limit_id == b.limit_id) && str_eq a.peer_ski b.peer_ski)

  -- `key in seen_keys`, the keys of the rows that are kept so far.
  unfoldable pub seen : Limit W → List (Limit W) → Bool
  seen row [] = false
  seen row (kept ∷ rest) = same_key kept row || seen row rest

  -- The loop: the rows that stay active, and those that it switches off, in the order of the query.
  unfoldable pub split_active :
      ℕ → List (Limit W) → List (Limit W) → List (Limit W) × List (Limit W)
  unfolding seen
  split_active now kept [] = ([], [])
  split_active now kept (row ∷ rows) =
      let off = split_active now kept rows in
      let on = split_active now (row ∷ kept) rows in
      if is_expired now row
      then (off.0, row ∷ off.1)
      else if seen row kept
      then (off.0, row ∷ off.1)
      else (row ∷ on.0, on.1)

  unfoldable pub candidates : ℕ → List (Limit W) → List (Limit W)
  candidates site_id [] = []
  candidates site_id (row ∷ rows) =
      let rest = candidates site_id rows in
      if (row.site_id == site_id) && row.is_active then row ∷ rest else rest

  pub has_id : String → List (Limit W) → Bool
  has_id id [] = false
  has_id id (row ∷ rows) = str_eq row.id id || has_id id rows

  pub switch_off : List (Limit W) → List (Limit W) → List (Limit W)
  unfolding has_id
  switch_off off [] = []
  switch_off off (row ∷ rows) =
      (if has_id row.id off then record row { is_active = false } else row) ∷ switch_off off rows

  -- `order_by(received_at.desc())`
  abbrev pub newest_first : List (Limit W) → List (Limit W)
  newest_first = sort_by (λ a b. leb b.received_at a.received_at)

  unfoldable pub active_load_control_limits :
      ℕ → ℕ → List (Limit W) → List (Limit W) × List (Limit W)
  unfolding split_active candidates switch_off
  active_load_control_limits site_id now limits =
      let (active, off) = split_active now [] (newest_first (candidates site_id limits)) in
      (active, switch_off off limits)
