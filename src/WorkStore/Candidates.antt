-- ===== src/WorkStore/Candidates.antt =====
-- work_store/service.py: what an approved role candidate becomes: an accepted entity of the home
-- graph, its evidence, and a task that commissions it. The hash of a stable reference (uuid5) is the
-- parameter `role_candidate_ref`.
pub mod Materialized
use Prim.Native.String.{◌++◌ as str_append}
use helios_home.Prelude.{
  ℕ, String, Bool, true, false, not, ◌&&◌, ◌||◌, Option, none, some, List, [], ◌∷◌, ◌++◌, str_eq,
  one_of, truthy, strip, if◌then◌else◌, leb, ◌==◌, pos,
}
use helios_home.Prelude.Float.{Float}
use helios_home.Prelude.Sort.{sort_by}
use helios_home.Prelude.Json.{
  Fields, Json, text, int, list, nil, cons, end, field, get, get_or, update, or_else, as_text, Repr,
  dict,
}
use helios_home.WorkStore.{
  AgentTask, TaskStep, Blocker, Proposal, UserDecisionRequest, HomeGraphEntity, HomeGraphEvidence,
  AuditEvent, Store, texts, add_task_step, add_blocker,
}

-- What is drawn or read from outside: new identifiers, and the clock.
pub record Drawn : Type 0 where
  pub decision_id : String
  pub evidence_id : String
  pub task_id : String
  pub step_id : String
  pub blocker_id : String
  pub now : ℕ
  -- `now.isoformat()`
  pub now_text : String

-- What is read from the payload of the proposal.
pub record Reading : Type 0 where
  pub entity_ref : String
  pub role : String
  pub label : String
  pub endpoint_ref : String
  pub integration_path : String

-- The result of `materialize_approved_role_candidate`.
pub record Accepted : Type 0 where
  pub role_candidate_ref : String
  pub task_ref : String
  pub reading : Reading
  pub status : String

abbrev named : List String → List String
named [] = []
named (ref ∷ refs) = if truthy ref then ref ∷ named refs else named refs

module _ {W : Type 0} where
  unfoldable pub entity_with : String → List (HomeGraphEntity W) → Option (HomeGraphEntity W)
  entity_with id [] = none
  entity_with id (e ∷ es) = if str_eq e.id id then some e else entity_with id es

  -- A row that is there is changed in its place.
  unfoldable pub put_entity :
      String → HomeGraphEntity W → List (HomeGraphEntity W) → List (HomeGraphEntity W)
  put_entity id new [] = new ∷ []
  put_entity id new (e ∷ es) = if str_eq e.id id then new ∷ es else e ∷ put_entity id new es

  unfoldable pub put_task : String → AgentTask W → List (AgentTask W) → List (AgentTask W)
  put_task id new [] = []
  put_task id new (t ∷ ts) = if str_eq t.id id then new ∷ ts else t ∷ put_task id new ts

  abbrev pub is_open_commissioning : ℕ → AgentTask W → Bool
  is_open_commissioning site_id task =
      (task.site_id == site_id)
      && (str_eq task.task_type "commission_role_candidate"
          && one_of task.status ("open" ∷ "running" ∷ "blocked" ∷ []))

  unfoldable pub open_tasks : ℕ → List (AgentTask W) → List (AgentTask W)
  open_tasks site_id [] = []
  open_tasks site_id (t ∷ ts) =
      let rest = open_tasks site_id ts in if is_open_commissioning site_id t then t ∷ rest else rest

  unfoldable pub first_for : String → List (AgentTask W) → Option (AgentTask W)
  first_for role_candidate_ref [] = none
  first_for role_candidate_ref (t ∷ ts) =
      if one_of role_candidate_ref t.target_refs then some t else first_for role_candidate_ref ts

  abbrev newest_first : List (AgentTask W) → List (AgentTask W)
  newest_first = sort_by (λ a b. leb b.created_at a.created_at)

  unfoldable pub find_open_commissioning_task :
      ℕ → String → List (AgentTask W) → Option (AgentTask W)
  unfolding open_tasks first_for
  find_open_commissioning_task site_id role_candidate_ref tasks =
      first_for role_candidate_ref (newest_first (open_tasks site_id tasks))

  abbrev task_context : String → String → String → Reading → Fields W
  task_context candidate_ref proposal_id request_id reading = texts (
      ("role_candidate_ref", candidate_ref)
      ∷ ("proposal_id", proposal_id)
      ∷ ("decision_request_id", request_id)
      ∷ ("endpoint_ref", reading.endpoint_ref)
      ∷ ("integration_path", reading.integration_path)
      ∷ ("current_phase", "awaiting_commissioning_workflow")
      ∷ [])

  unfoldable pub commissioning_task : Drawn → String → Proposal W → String → Reading → AgentTask W
  commissioning_task drawn candidate_ref proposal request_id reading = record {
    id = drawn.task_id;
    site_id = proposal.site_id;
    thread_id = proposal.thread_id;
    turn_id = proposal.turn_id;
    task_type = "commission_role_candidate";
    title = "commission_role_candidate";
    goal = "commission_role_candidate";
    status = "open";
    target_refs = named (
        reading.entity_ref
        ∷ candidate_ref
        ∷ str_append "role:" reading.role
        ∷ reading.endpoint_ref
        ∷ []);
    context = task_context candidate_ref proposal.id request_id reading;
    created_at = drawn.now;
    updated_at = drawn.now;
    completed_at = none;
  }

  -- The task of the candidate: the open one that is there, brought up to date, or a new one with its
  -- first step and its blocker. Given with its identifier.
  with_task :
      Drawn
      → String
      → Proposal W
      → String
      → Reading
      → Option (AgentTask W)
      → Store W
      → String × Store W
  unfolding commissioning_task put_task
  with_task drawn candidate_ref proposal request_id reading none store = (
    drawn.task_id,
    record store {
      tasks = commissioning_task drawn candidate_ref proposal request_id reading ∷ store.tasks;
      steps =
          add_task_step drawn.step_id drawn.now drawn.task_id "role_candidate_accepted"
            "role_candidate_accepted" "completed" "role_candidate_accepted"
            (texts (("role_candidate_ref", candidate_ref) ∷ ("proposal_id", proposal.id) ∷ []))
          ∷ store.steps;
      blockers =
          add_blocker drawn.blocker_id drawn.now "commissioning_workflow_not_started"
            "commissioning_workflow_not_started" (some drawn.task_id) candidate_ref
            (field "missing_capabilities"
              (list (cons (text "eebus_trust_commissioning_readiness_validation") nil))
              (texts (("role", reading.role) ∷ ("entity_ref", reading.entity_ref) ∷ [])))
          ∷ store.blockers;
    },
  )
  with_task drawn candidate_ref proposal request_id reading (some task) store = (
    task.id,
    record store {
      tasks =
          put_task task.id
            (record task {
              title = "commission_role_candidate";
              goal = "commission_role_candidate";
              updated_at = drawn.now;
              context =
                  update task.context (task_context candidate_ref proposal.id request_id reading);
            })
            store.tasks;
    },
  )

  abbrev created_at_or : ℕ → Option (HomeGraphEntity W) → ℕ
  created_at_or now none = now
  created_at_or now (some e) = e.created_at

  unfoldable pub accepted_entity :
      Drawn
      → String
      → Proposal W
      → String
      → Reading
      → Option (HomeGraphEntity W)
      → HomeGraphEntity W
  accepted_entity drawn candidate_ref proposal request_id reading existing = record {
    id = candidate_ref;
    site_id = elim existing [ none ↦ proposal.site_id | some e ↦ e.site_id ];
    entity_type = elim existing [ none ↦ "role_candidate" | some e ↦ e.entity_type ];
    source_type = "proposal";
    source_id = proposal.id;
    display_name = reading.label;
    semantic_type = reading.role;
    status = "accepted";
    properties = field "entity_ref" (text reading.entity_ref) (
        field "role" (text reading.role) (
          field "label" (text reading.label) (
            field "proposal_id" (text proposal.id) (
              field "decision_request_id" (text request_id) (
                field "endpoint_ref" (text reading.endpoint_ref) (
                  field "integration_path" (text reading.integration_path) (
                    field "accepted_at" (text drawn.now_text)
                      (field "readiness_status" (text "awaiting_commissioning") end))))))));
    created_at = created_at_or drawn.now existing;
    updated_at = drawn.now;
  }

  -- The part of `materialize_approved_role_candidate` behind its early returns.
  unfoldable pub accept :
      Drawn → String → Proposal W → String → Reading → Store W → Accepted × Store W
  unfolding entity_with put_entity accepted_entity find_open_commissioning_task with_task
  accept drawn candidate_ref proposal request_id reading store =
      let refs =
        ("endpoint_ref", reading.endpoint_ref)
        ∷ ("integration_path", reading.integration_path)
        ∷ [] in
      let (task_ref, after) =
        with_task drawn candidate_ref proposal request_id reading
          (find_open_commissioning_task proposal.site_id candidate_ref store.tasks) store in
      (
        record {
          role_candidate_ref = candidate_ref;
          task_ref = task_ref;
          reading = reading;
          status = "accepted";
        },
        record after {
          entities =
              put_entity candidate_ref
                (accepted_entity drawn candidate_ref proposal request_id reading
                  (entity_with candidate_ref store.entities))
                store.entities;
          evidence =
              record {
                id = drawn.evidence_id;
                site_id = proposal.site_id;
                subject_ref = reading.entity_ref;
                evidence_type = "user_approved_role_candidate";
                source = "user_decision";
                summary = "user_approved_role_candidate";
                payload = texts (
                    ("role_candidate_ref", candidate_ref)
                    ∷ ("proposal_id", proposal.id)
                    ∷ ("decision_request_id", request_id)
                    ∷ ("role", reading.role)
                    ∷ ("label", reading.label)
                    ∷ refs);
                trust = "user_approved";
                created_at = drawn.now;
              }
              ∷ store.evidence;
          audit =
              record {
                actor = "system";
                action = "materialize_approved_role_candidate";
                target_type = "role_candidate";
                target_id = candidate_ref;
                summary = "role_candidate_materialized";
                details = texts (
                    ("proposal_id", proposal.id)
                    ∷ ("decision_request_id", request_id)
                    ∷ ("task_id", task_ref)
                    ∷ ("entity_ref", reading.entity_ref)
                    ∷ ("role", reading.role)
                    ∷ refs);
                created_at = drawn.now;
              }
              ∷ store.audit;
        },
      )

module _ {W : Type 0} ⦃fl : Float W⦄ ⦃r : Repr W⦄ where
  abbrev stripped : Json W → String
  stripped value = strip (as_text value)

  unfoldable pub read_payload : Fields W → Reading
  read_payload payload =
      let entity_ref = stripped (or_else (get payload "entity_ref") (text "")) in
      record {
        entity_ref = entity_ref;
        role = stripped (or_else (get payload "role") (text ""));
        label = stripped (or_else (get payload "label") (text entity_ref));
        endpoint_ref = stripped (or_else (get payload "endpoint_ref") (text ""));
        integration_path = stripped (or_else (get payload "integration_path") (text ""));
      }

module _ {W : Type 0} ⦃fl : Float W⦄ ⦃r : Repr W⦄
    (role_candidate_ref : ℕ → String → String → String) where
  unfoldable pub materialize_approved_role_candidate :
      Drawn → Proposal W → String → Store W → Option Accepted × Store W
  unfolding read_payload accept
  materialize_approved_role_candidate drawn proposal request_id store =
      let reading = read_payload proposal.payload in
      if not (str_eq proposal.proposal_type "role_binding")
      then (none, store)
      else if not (truthy reading.entity_ref && truthy reading.role)
      then (none, store)
      else (let done =
            accept drawn (role_candidate_ref proposal.site_id reading.entity_ref reading.role)
              proposal request_id reading store in
          (some done.0, done.1))

  -- What `latest_accepted_role_candidate_for_entity` finds, of the fields that do not come from the
  -- properties: the identifier, the role and the label.
  unfoldable pub latest_accepted_role_candidate_for_entity :
      ℕ → String → String → Store W → Option (HomeGraphEntity W)
  unfolding entity_with
  latest_accepted_role_candidate_for_entity site_id entity_ref role store =
      accepted_or_none (entity_with (role_candidate_ref site_id entity_ref role) store.entities)
    where
      accepted_or_none : Option (HomeGraphEntity W) → Option (HomeGraphEntity W)
      accepted_or_none none = none
      accepted_or_none (some row) = if str_eq row.status "accepted" then some row else none

-- `accepted_role_candidates`, as the rows that it lists.
module _ {W : Type 0} where
  accepted_of : ℕ → List (HomeGraphEntity W) → List (HomeGraphEntity W)
  accepted_of site_id [] = []
  accepted_of site_id (e ∷ es) =
      let rest = accepted_of site_id es in
      if (e.site_id == site_id)
        && (str_eq e.entity_type "role_candidate" && str_eq e.status "accepted")
      then e ∷ rest
      else rest

  unfoldable pub accepted_role_candidates : ℕ → Store W → List (HomeGraphEntity W)
  unfolding accepted_of
  accepted_role_candidates site_id store =
      sort_by (λ a b. leb b.updated_at a.updated_at) (accepted_of site_id store.entities)
