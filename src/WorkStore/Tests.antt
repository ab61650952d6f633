-- ===== src/WorkStore/Tests.antt =====
-- The theorems of the work store at concrete inputs.
use helios_home.Prelude.{
  ◌↔◌, ℕ, ◌≡◌, refl, String, true, none, [], ◌∷◌, ℤ, ok, err, strip, lower, one_of,
}
use helios_home.Prelude.Float.{units}
use helios_home.Prelude.Json.{text, end, field, Repr, get, as_bool}
use helios_home.WorkStore.{Store}
use helios_home.WorkStore.Proposals.{
  Draft, create_proposal_with_decision_request, proposed, requested,
}
use helios_home.WorkStore.Candidates.{
  Drawn, Accepted, materialize_approved_role_candidate, read_payload, accept,
}
use helios_home.WorkStore.Candidates.Materialized.{
  IsFound, materialize_approved_role_candidate-IsMaterialized,
}
use helios_home.WorkStore.Decisions.{
  Failure, record_user_decision, decide, request_with, proposal_with,
}
use helios_home.WorkStore.Decisions.Outcome.{
  Passes, record_user_decision_iff, record_user_decision_ok, record_user_decision_reject,
}
use helios_home.WorkStore.Decisions.Once.{IsOnce}
use helios_home.WorkStore.Decisions.Once.Reached.{
  ask, answer, here, next, Reach-IsOnce, record_user_decision_twice,
}

instance abbrev shown : Repr ℤ
shown = record { repr = λ v. "value" }

-- A reference that keeps the entity and forgets the rest.
abbrev hashed : ℕ → String → String → String
hashed site_id entity_ref role = entity_ref

abbrev nothing : Store ℤ
nothing = record {
  tasks = [];
  steps = [];
  blockers = [];
  proposals = [];
  requests = [];
  decisions = [];
  entities = [];
  evidence = [];
  audit = [];
}

abbrev draft : Draft ℤ
draft = record {
  site_id = 1;
  proposal_type = "role_binding";
  title = "Bind";
  summary = "Bind the meter";
  payload = field "entity_ref" (text "meter") (field "role" (text "grid_meter") end);
  question = "Bind it?";
  thread_id = none;
  turn_id = none;
  task_id = none;
  target_refs = [];
  risk_level = "medium";
}

abbrev asked : Store ℤ
asked = record nothing {
  proposals = proposed "p1" 10 draft ∷ [];
  requests = requested "d1" "p1" 10 draft ∷ [];
}

abbrev drawn : Drawn
drawn = record {
  decision_id = "u1";
  evidence_id = "e1";
  task_id = "t1";
  step_id = "s1";
  blocker_id = "b1";
  now = 20;
  now_text = "2026-01-01T00:00:20+00:00";
}

passes :
    (d : String) (known : one_of (lower (strip d)) ("approve" ∷ "reject" ∷ []) ≡ true)
    → Passes "d1" d asked
unfolding request_with proposal_with proposed requested
passes d known = record {
  request = requested "d1" "p1" 10 draft;
  proposal = proposed "p1" 10 draft;
  asked = refl;
  proposed = refl;
  pending = refl;
  known = known;
}

Passes-approve : Passes "d1" " Approve " asked
unfolding strip lower
Passes-approve = passes " Approve " refl

Passes-reject : Passes "d1" "reject" asked
unfolding strip lower
Passes-reject = passes "reject" refl

abbrev approved : Store ℤ
approved =
    decide hashed drawn "user" "" (lower (strip " Approve ")) Passes-approve.request
      Passes-approve.proposal asked

record_user_decision_twice_example :
    record_user_decision hashed drawn "d1" "reject" "other" "" approved ≡ err Failure.value_error
record_user_decision_twice_example =
    record_user_decision_twice hashed drawn drawn "d1" " Approve " "user" "" "reject" "other" ""
      asked approved
      (record_user_decision_ok hashed drawn "d1" " Approve " "user" "" asked Passes-approve)

record_user_decision_iff_example :
    (record_user_decision hashed drawn "d1" " Approve " "user" "" asked ≡ ok approved) ↔ (
      (p : Passes "d1" " Approve " asked) × (approved
        ≡ decide hashed drawn "user" "" (lower (strip " Approve ")) p.request p.proposal asked))
record_user_decision_iff_example =
    record_user_decision_iff hashed drawn "d1" " Approve " "user" "" asked approved

abbrev rejected : Store ℤ
rejected =
    decide hashed drawn "user" "" (lower (strip "reject")) Passes-reject.request
      Passes-reject.proposal asked

record_user_decision_reject_example :
    (rejected.entities ≡ [])
    × (rejected.evidence ≡ [])
    × (rejected.tasks ≡ [])
    × (rejected.steps ≡ [])
    × (rejected.blockers ≡ [])
unfolding strip lower
record_user_decision_reject_example =
    record_user_decision_reject hashed drawn "d1" "reject" "user" "" asked rejected refl
      (record_user_decision_ok hashed drawn "d1" "reject" "user" "" asked Passes-reject)

abbrev opened : Store ℤ
opened = create_proposal_with_decision_request "p1" "d1" 10 draft nothing

opened-Passes : Passes "d1" " Approve " opened
unfolding create_proposal_with_decision_request request_with proposal_with strip lower
opened-Passes = record {
  request = requested "d1" "p1" 10 draft;
  proposal = proposed "p1" 10 draft;
  asked = refl;
  proposed = refl;
  pending = refl;
  known = refl;
}

abbrev settled : Store ℤ
settled =
    decide hashed drawn "user" "" (lower (strip " Approve ")) opened-Passes.request
      opened-Passes.proposal opened

Reach-IsOnce_example : IsOnce settled
Reach-IsOnce_example =
    Reach-IsOnce hashed nothing settled
      (next (next here (ask "p1" "d1" 10 draft nothing refl)) (
        answer drawn "d1" " Approve " "user" ""
          (record_user_decision_ok hashed drawn "d1" " Approve " "user" "" opened opened-Passes)))
      (record { distinct = tt; settled = tt; known = tt })

abbrev candidate : Accepted × Store ℤ
candidate = accept drawn "meter" (proposed "p1" 10 draft) "d1" (read_payload draft.payload) asked

materialize_approved_role_candidate-IsMaterialized_example :
    IsFound hashed (proposed "p1" 10 draft) asked candidate.0 candidate.1
unfolding materialize_approved_role_candidate proposed strip read_payload get as_bool
materialize_approved_role_candidate-IsMaterialized_example =
    materialize_approved_role_candidate-IsMaterialized hashed drawn (proposed "p1" 10 draft) "d1"
      asked
