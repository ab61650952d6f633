-- ===== src/WorkStore/Decisions.antt =====
-- work_store/service.py: the user's decision about a proposal.
pub mod Once
pub mod Outcome
use helios_home.Prelude.{
  ℕ, String, Bool, true, false, not, Option, none, some, List, [], ◌∷◌, str_eq, one_of, strip,
  lower, if◌then◌else◌, Result, ok, err,
}
use helios_home.Prelude.Float.{Float}
use helios_home.Prelude.Json.{Fields, Json, text, dict, end, field, Repr}
use helios_home.WorkStore.{Proposal, UserDecisionRequest, UserDecision, AuditEvent, Store, texts}
use helios_home.WorkStore.Candidates.{Drawn, Accepted, materialize_approved_role_candidate}

-- What is raised: the request is unknown; its proposal is missing; it is no longer pending, or the
-- decision is neither of the two.
pub data Failure : Type 0 where
  key_error runtime_error value_error : Failure

unfoldable pub request_with : String → List UserDecisionRequest → Option UserDecisionRequest
request_with id [] = none
request_with id (r ∷ rs) = if str_eq r.id id then some r else request_with id rs

unfoldable pub put_request :
    String → UserDecisionRequest → List UserDecisionRequest → List UserDecisionRequest
put_request id new [] = []
put_request id new (r ∷ rs) = if str_eq r.id id then new ∷ rs else r ∷ put_request id new rs

-- The request and the proposal once they are decided.
abbrev pub decided_request : ℕ → Bool → UserDecisionRequest → UserDecisionRequest
decided_request now approve request = record request {
  status = if approve then "approved" else "rejected";
  decided_at = some now;
}

module _ {W : Type 0} where
  unfoldable pub proposal_with : String → List (Proposal W) → Option (Proposal W)
  proposal_with id [] = none
  proposal_with id (p ∷ ps) = if str_eq p.id id then some p else proposal_with id ps

  unfoldable pub put_proposal : String → Proposal W → List (Proposal W) → List (Proposal W)
  put_proposal id new [] = []
  put_proposal id new (p ∷ ps) = if str_eq p.id id then new ∷ ps else p ∷ put_proposal id new ps

  -- `{"materialized": materialized} if materialized else {}`
  unfoldable pub details_of : Option Accepted → Fields W
  details_of none = end
  details_of (some a) =
      field "materialized"
        (dict (
          texts (
            ("role_candidate_ref", a.role_candidate_ref)
            ∷ ("task_ref", a.task_ref)
            ∷ ("entity_ref", a.reading.entity_ref)
            ∷ ("role", a.reading.role)
            ∷ ("label", a.reading.label)
            ∷ ("endpoint_ref", a.reading.endpoint_ref)
            ∷ ("integration_path", a.reading.integration_path)
            ∷ ("status", a.status)
            ∷ [])))
        end

  abbrev pub decided_proposal : ℕ → Bool → Proposal W → Proposal W
  decided_proposal now approve proposal = record proposal {
    status = if approve then "user_approved" else "rejected";
    resolved_at = some now;
    updated_at = now;
  }

  -- The rows that are changed, and the audit event, before a role candidate is materialized.
  unfoldable pub decided :
      Drawn
      → Bool
      → (actor decision : String) → UserDecisionRequest
      → Proposal W
      → Store W
      → Store W
  unfolding put_request put_proposal
  decided drawn approve actor decision request proposal store = record store {
    requests = put_request request.id (decided_request drawn.now approve request) store.requests;
    proposals =
        put_proposal proposal.id (decided_proposal drawn.now approve proposal) store.proposals;
    audit =
        record {
          actor = actor;
          action = "record_user_decision";
          target_type = "proposal";
          target_id = proposal.id;
          summary = "user_decision_recorded";
          details = texts (
              ("decision_request_id", request.id)
              ∷ ("decision", decision)
              ∷ ("proposal_type", proposal.proposal_type)
              ∷ []);
          created_at = drawn.now;
        }
        ∷ store.audit;
  }

  abbrev pub decision_row :
      Drawn
      → (actor comment decision : String) → UserDecisionRequest
      → Proposal W
      → Option Accepted
      → UserDecision W
  decision_row drawn actor comment decision request proposal materialized = record {
    id = drawn.decision_id;
    request_id = request.id;
    proposal_id = proposal.id;
    decision = decision;
    actor = actor;
    comment = comment;
    details = details_of materialized;
    created_at = drawn.now;
  }

module _ {W : Type 0} ⦃fl : Float W⦄ ⦃r : Repr W⦄
    (role_candidate_ref : ℕ → String → String → String) where
  abbrev materialized_if : Bool → Drawn → Proposal W → String → Store W → Option Accepted × Store W
  materialized_if true drawn proposal request_id store =
      materialize_approved_role_candidate role_candidate_ref drawn proposal request_id store
  materialized_if false drawn proposal request_id store = (none, store)

  -- Behind the checks.
  unfoldable pub decide_as :
      Bool
      → Drawn
      → (actor comment decision : String) → UserDecisionRequest
      → Proposal W
      → Store W
      → Store W
  unfolding decided details_of
  decide_as approve drawn actor comment decision request proposal store =
      let changed = decided drawn approve actor decision request proposal store in
      let (materialized, after) =
        materialized_if approve drawn (decided_proposal drawn.now approve proposal) request.id
          changed in
      record after {
        decisions =
            decision_row drawn actor comment decision request proposal materialized
            ∷ after.decisions;
      }

  unfoldable pub decide :
      Drawn
      → (actor comment decision : String) → UserDecisionRequest
      → Proposal W
      → Store W
      → Store W
  unfolding decide_as
  decide drawn actor comment decision request proposal store =
      decide_as (str_eq decision "approve") drawn actor comment decision request proposal store

  abbrev with_proposal :
      Drawn
      → (decision actor comment : String) → UserDecisionRequest
      → Option (Proposal W)
      → Store W
      → Result Failure (Store W)
  with_proposal drawn decision actor comment request none store = err Failure.runtime_error
  with_proposal drawn decision actor comment request (some proposal) store =
      let normalized_decision = lower (strip decision) in
      if not (str_eq request.status "pending")
      then err Failure.value_error
      else if not (one_of normalized_decision ("approve" ∷ "reject" ∷ []))
      then err Failure.value_error
      else ok (decide drawn actor comment normalized_decision request proposal store)

  abbrev with_request :
      Drawn
      → (decision actor comment : String) → Option UserDecisionRequest
      → Store W
      → Result Failure (Store W)
  with_request drawn decision actor comment none store = err Failure.key_error
  with_request drawn decision actor comment (some request) store =
      with_proposal drawn decision actor comment request
        (proposal_with request.proposal_id store.proposals) store

  -- An exception leaves the rows as they are: all checks come before the first change.
  unfoldable pub record_user_decision :
      Drawn → (request_id decision actor comment : String) → Store W → Result Failure (Store W)
  unfolding request_with proposal_with decide
  record_user_decision drawn request_id decision actor comment store =
      with_request drawn decision actor comment (request_with request_id store.requests) store
