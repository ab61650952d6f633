-- ===== src/Discovery/Rank.antt =====
-- services/candidate_reconciliation.py: the order of the candidates, and what is picked of the first.
use helios_home.Prelude.{
  ℕ, suc, String, Bool, true, false, not, ◌&&◌, ◌||◌, Option, none, some, List, [], ◌∷◌, ltb, leb,
  ◌==◌, if◌then◌else◌, str_eq, one_of, truthy, strip, lower, min,
}
use helios_home.Prelude.Float.{Float}
use helios_home.Prelude.Sort.{sort_by}
use helios_home.Prelude.Json.{Fields, end, field, get, update, as_bool}
use helios_home.Discovery.{RawCandidate}

-- `SOURCE_PRIORITY.get(source_name, 99)`
unfoldable pub source_priority : String → ℕ
source_priority name =
    if str_eq name "local_network_live"
    then 0
    else if str_eq name "modbus_live"
    then 1
    else if str_eq name "eebus_ship_live"
    then 2
    else if str_eq name "network_broadcast_live"
    then 3
    else if str_eq name "mqtt_live"
    then 4
    else 99

abbrev starts_with : String → String → Bool
starts_with String.[] s = true
starts_with (String.◌∷◌ p ps) String.[] = false
starts_with (String.◌∷◌ p ps) (String.◌∷◌ c s) =
    str_eq (String.◌∷◌ p String.[]) (String.◌∷◌ c String.[]) && starts_with ps s

-- `_is_generic_label`
unfoldable pub is_generic_label : String → Bool
unfolding strip lower
is_generic_label value =
    let lowered = lower (strip value) in
    one_of lowered (
      "" ∷ "local energy device" ∷ "local http device" ∷ "mqtt energy device" ∷ "shelly web admin"
      ∷ "tasmota" ∷ "unknown" ∷ [])
    || starts_with "local energy device " lowered

-- `_is_generic_model`
unfoldable pub is_generic_model : String → Bool
unfolding strip lower
is_generic_model value =
    one_of (lower (strip value)) ("" ∷ "local http device" ∷ "mqtt energy device" ∷ "unknown" ∷ [])

abbrev best_source : List String → ℕ
best_source [] = 99
best_source (name ∷ []) = source_priority name
best_source (name ∷ names) = min (source_priority name) (best_source names)

-- The tuple of `_source_rank`; `telemetry` is the number whose negative the program takes.
pub record Rank : Type 0 where
  pub source : ℕ
  pub monitorable : ℕ
  pub telemetry : ℕ

abbrev pub le_rank : Rank → Rank → Bool
le_rank a b =
    ltb a.source b.source
    || ((a.source == b.source)
        && (ltb a.monitorable b.monitorable
            || ((a.monitorable == b.monitorable) && leb b.telemetry a.telemetry)))

module _ {W : Type 0} where
  abbrev width : Fields W → ℕ
  width end = 0
  width (field k v rest) = suc (width rest)

module _ {W : Type 0} ⦃fl : Float W⦄ where
  unfoldable pub hinted : String → RawCandidate W → Bool
  unfolding get as_bool
  hinted key candidate = as_bool (get candidate.capabilities_hint key)

  -- `_source_rank`
  unfoldable pub source_rank : RawCandidate W → Rank
  unfolding hinted
  source_rank candidate = record {
    source = best_source candidate.discovery_sources;
    monitorable = if hinted "monitorable" candidate then 0 else 1;
    telemetry = width candidate.telemetry;
  }

  abbrev pub before : RawCandidate W → RawCandidate W → Bool
  before a b = le_rank (source_rank a) (source_rank b)

  -- The first candidate, in the order of the ranks, whose value is wanted.
  unfoldable pub pick :
      (RawCandidate W → Bool) → (RawCandidate W → String) → List (RawCandidate W) → String → String
  pick wanted value [] fallback = fallback
  pick wanted value (c ∷ cs) fallback = if wanted c then value c else pick wanted value cs fallback

  abbrev pub ranked : List (RawCandidate W) → List (RawCandidate W)
  ranked candidates = sort_by before candidates

  -- `_pick_display_name`
  unfoldable pub pick_display_name : List (RawCandidate W) → String → String
  unfolding pick is_generic_label sort_by
  pick_display_name candidates fallback =
      pick (λ c. not (is_generic_label c.display_name)) (λ c. c.display_name) (ranked candidates)
        fallback

  -- `_pick_model`
  unfoldable pub pick_model : List (RawCandidate W) → String → String
  unfolding pick is_generic_model sort_by
  pick_model candidates fallback =
      pick (λ c. not (is_generic_model c.model)) (λ c. c.model) (ranked candidates) fallback

  -- `_pick_firmware`
  unfoldable pub pick_firmware : List (RawCandidate W) → String → String
  unfolding pick strip lower sort_by
  pick_firmware candidates fallback =
      pick (λ c. truthy (strip c.firmware) && not (str_eq (lower (strip c.firmware)) "unknown"))
        (λ c. c.firmware) (ranked candidates) fallback

  first_issue : List (RawCandidate W) → Option String
  first_issue [] = none
  first_issue (c ∷ cs) = elim c.issue_code [
    | none ↦ first_issue cs
    | some code ↦ if truthy code then some code else first_issue cs
  ]

  -- `_pick_issue_code`
  unfoldable pub pick_issue_code : List (RawCandidate W) → Bool → Option String
  unfolding first_issue sort_by
  pick_issue_code candidates any_monitorable =
      if any_monitorable then none else first_issue (ranked candidates)

  unfoldable pub any_hinted : String → List (RawCandidate W) → Bool
  unfolding hinted
  any_hinted key [] = false
  any_hinted key (c ∷ cs) = hinted key c || any_hinted key cs

  merged_from : Fields W → List (RawCandidate W) → Fields W
  unfolding update
  merged_from telemetry [] = telemetry
  merged_from telemetry (c ∷ cs) = merged_from (update telemetry c.telemetry) cs

  -- `_merge_telemetry`: the best candidate is the last to be read.
  unfoldable pub merge_telemetry : List (RawCandidate W) → Fields W
  unfolding merged_from sort_by
  merge_telemetry candidates = merged_from end (sort_by (λ a b. before b a) candidates)
