-- ===== src/Discovery/Merge.antt =====
-- services/candidate_reconciliation.py: what is made of the candidates of one cluster. A cluster is its
-- first candidate and the others, so it is never empty, and `sorted(candidates)[0]` is always there.
pub mod Zone
use Prim.Native.Nat.{Ordering}
use Prim.Native.String.{compare as compare_text}
use helios_home.Prelude.{
  ℕ, zero, suc, ◌+◌, String, Bool, true, false, not, ◌&&◌, ◌||◌, Option, none, some, List, [], ◌∷◌,
  ◌++◌, ltb, leb, ◌==◌, if◌then◌else◌, str_eq, one_of, truthy, strip, lower, formatted, min,
}
use helios_home.Prelude.Float.{Float}
use helios_home.Prelude.Sort.{sort_by}
use helios_home.Prelude.Json.{
  Json, Items, Fields, nil, cons, text, list, bool, dict, end, field, get, put, update, as_bool,
  Repr, as_text,
}
use helios_home.Discovery.{RawCandidate}
use helios_home.Discovery.Identity.{evidence_list, add_key, add_keys, candidate_identity_keys}
use helios_home.Discovery.Rank.{
  hinted, before, ranked, pick_display_name, pick_model, pick_firmware, pick_issue_code, any_hinted,
  merge_telemetry,
}

-- `STRICT_RECOVERY_ORDER.get(zone, 0)`
unfoldable pub strict_recovery_order : String → ℕ
strict_recovery_order zone =
    if str_eq zone "auto_apply"
    then 0
    else if str_eq zone "guarded_apply"
    then 1
    else if str_eq zone "human_gated"
    then 2
    else 0

-- The order of texts.
abbrev pub le_text : String → String → Bool
le_text a b = elim (compare_text a b) [ Ordering.gt ↦ false | _ ↦ true ]

-- `",".join(names)`
unfoldable pub joined : List String → String
unfolding formatted
joined [] = ""
joined (name ∷ []) = name
joined (name ∷ names) = formatted (name ∷ "," ∷ joined names ∷ [])

module _ {W : Type 0} where
  -- The first candidate of the strictest zone, as `max` finds it: `best` is the one so far.
  unfoldable pub strictest : RawCandidate W → List (RawCandidate W) → RawCandidate W
  unfolding strict_recovery_order
  strictest best [] = best
  strictest best (c ∷ cs) =
      strictest
        (if ltb (strict_recovery_order best.recovery_zone) (strict_recovery_order c.recovery_zone)
          then c
          else best)
        cs

  -- `_pick_recovery_zone`
  unfoldable pub pick_recovery_zone : RawCandidate W → List (RawCandidate W) → String → String
  unfolding strictest
  pick_recovery_zone first others base_zone =
      let zone = (strictest first others).recovery_zone in if truthy zone then zone else base_zone

  -- `{source for candidate in candidates for source in ...}`
  names_of : (RawCandidate W → List String) → List (RawCandidate W) → List String → List String
  unfolding add_keys
  names_of field_of [] names = names
  names_of field_of (c ∷ cs) names = names_of field_of cs (add_keys names (field_of c))

  abbrev texts_of : List String → Items W
  texts_of [] = nil
  texts_of (name ∷ names) = cons (text name) (texts_of names)

  -- `if names: merged[key] = sorted(names)`
  put_names : String → List String → Fields W → Fields W
  unfolding put sort_by
  put_names key [] merged = merged
  put_names key names merged = put merged key (list (texts_of (sort_by le_text names)))

module _ {W : Type 0} ⦃r : Repr W⦄ where
  abbrev stripped_texts : List (Json W) → List String
  stripped_texts [] = []
  stripped_texts (v ∷ vs) =
      let name = strip (as_text v) in
      let rest = stripped_texts vs in if truthy name then name ∷ rest else rest

  abbrev source_evidence : List (RawCandidate W) → Fields W → Fields W
  source_evidence [] seen = seen
  source_evidence (c ∷ cs) seen =
      source_evidence cs (put seen (joined (sources c.discovery_sources)) (dict c.evidence))
    where
      sources : List String → List String
      sources [] = "unknown" ∷ []
      sources names = names

  -- `_merge_evidence`
  unfoldable pub merge_evidence : RawCandidate W → List (RawCandidate W) → Fields W
  unfolding candidate_identity_keys evidence_list names_of put_names put joined strip
  merge_evidence primary candidates =
      let values : String → RawCandidate W → List String =
        λ key c. stripped_texts (evidence_list c.evidence key) in
      put_names "hostnames" (names_of (values "hostnames") candidates []) (
        put_names "network_macs" (names_of (values "network_macs") candidates []) (
          put_names "identity_keys" (names_of candidate_identity_keys candidates []) (
            put (put primary.evidence "reconciled" (bool (several candidates))) "source_evidence"
              (dict (source_evidence candidates end)))))
    where
      several : List (RawCandidate W) → Bool
      several (c ∷ d ∷ cs) = true
      several _ = false

module _ {W : Type 0} ⦃fl : Float W⦄ ⦃r : Repr W⦄ where
  -- `_merge_cluster`
  unfoldable pub merge_cluster : RawCandidate W → List (RawCandidate W) → RawCandidate W
  unfolding pick_display_name pick_model pick_firmware names_of merge_telemetry merge_evidence
      pick_recovery_zone pick_issue_code any_hinted sort_by
  merge_cluster first [] = first
  merge_cluster first others =
      let candidates = first ∷ others in
      let primary = head_of (ranked candidates) in
      let any_monitorable = any_hinted "monitorable" candidates in
      record primary {
        display_name = pick_display_name candidates primary.display_name;
        model = pick_model candidates primary.model;
        firmware = pick_firmware candidates primary.firmware;
        discovery_sources = sort_by le_text (names_of (λ c. c.discovery_sources) candidates []);
        protocols = sort_by le_text (names_of (λ c. c.protocols) candidates []);
        telemetry = merge_telemetry candidates;
        evidence = merge_evidence primary candidates;
        recovery_zone = pick_recovery_zone first others primary.recovery_zone;
        issue_code = pick_issue_code candidates any_monitorable;
        capabilities_hint = field "visible" (bool (any_hinted "visible" candidates)) (
            field "monitorable" (bool any_monitorable) (
              field "controllable" (bool (any_hinted "controllable" candidates))
                (field "optimizable" (bool (any_hinted "optimizable" candidates)) end)));
      }
    where
      -- The list is not empty here.
      head_of : List (RawCandidate W) → RawCandidate W
      head_of [] = first
      head_of (c ∷ cs) = c
