-- ===== src/WorkStore/Proposals.antt =====
-- work_store/service.py: a proposal, with the question that the user is asked about it.
use helios_home.Prelude.{
  ℕ, String, Option, none, some, List, [], ◌∷◌, str_eq, Bool, false, ◌&&◌, leb, if◌then◌else◌,
}
use helios_home.Prelude.Sort.{sort_by}
use helios_home.Prelude.Json.{Fields, text, end, field, Items, list, nil, cons}
use helios_home.WorkStore.{Proposal, UserDecisionRequest, Store}

-- A list of texts as a value.
abbrev text_items : {W : Type 0} → List String → Items W
text_items [] = nil
text_items (t ∷ ts) = cons (text t) (text_items ts)

-- What a proposal is made of.
pub record Draft (W : Type 0) : Type 0 where
  pub site_id : ℕ
  pub proposal_type : String
  pub title : String
  pub summary : String
  pub payload : Fields W
  pub question : String
  pub thread_id : Option String
  pub turn_id : Option String
  pub task_id : Option String
  pub target_refs : List String
  pub risk_level : String

module _ {W : Type 0} where
  unfoldable pub proposed : (id : String) (now : ℕ) → Draft W → Proposal W
  proposed id now draft = record {
    id = id;
    site_id = draft.site_id;
    thread_id = draft.thread_id;
    turn_id = draft.turn_id;
    task_id = draft.task_id;
    proposal_type = draft.proposal_type;
    title = draft.title;
    summary = draft.summary;
    payload = draft.payload;
    target_refs = draft.target_refs;
    risk_level = draft.risk_level;
    status = "awaiting_user_decision";
    created_at = now;
    updated_at = now;
    resolved_at = none;
  }

  unfoldable pub requested : (id proposal_id : String) (now : ℕ) → Draft W → UserDecisionRequest
  requested id proposal_id now draft = record {
    id = id;
    site_id = draft.site_id;
    thread_id = draft.thread_id;
    turn_id = draft.turn_id;
    proposal_id = proposal_id;
    question = draft.question;
    options = "approve" ∷ "reject" ∷ [];
    risk_level = draft.risk_level;
    status = "pending";
    created_at = now;
    decided_at = none;
  }

  unfoldable pub create_proposal_with_decision_request :
      (proposal_id decision_id : String) (now : ℕ) → Draft W → Store W → Store W
  unfolding proposed requested
  create_proposal_with_decision_request proposal_id decision_id now draft store = record store {
    proposals = proposed proposal_id now draft ∷ store.proposals;
    requests = requested decision_id proposal_id now draft ∷ store.requests;
    audit =
        record {
          actor = "agent";
          action = "create_user_decision_request";
          target_type = "proposal";
          target_id = proposal_id;
          summary = draft.summary;
          details = field "decision_request_id" (text decision_id) (
              field "proposal_type" (text draft.proposal_type) (
                field "risk_level" (text draft.risk_level)
                  (field "target_refs" (list (text_items draft.target_refs)) end)));
          created_at = now;
        }
        ∷ store.audit;
  }

  -- `list_pending_proposals`
  awaiting : String → List (Proposal W) → List (Proposal W)
  awaiting thread_id [] = []
  awaiting thread_id (p ∷ ps) =
      let rest = awaiting thread_id ps in
      if is_of p.thread_id && str_eq p.status "awaiting_user_decision" then p ∷ rest else rest
    where
      is_of : Option String → Bool
      is_of none = false
      is_of (some id) = str_eq id thread_id

pending_for : String → List UserDecisionRequest → List UserDecisionRequest
pending_for proposal_id [] = []
pending_for proposal_id (r ∷ rs) =
    let rest = pending_for proposal_id rs in
    if str_eq r.proposal_id proposal_id && str_eq r.status "pending" then r ∷ rest else rest

abbrev first : List UserDecisionRequest → Option UserDecisionRequest
first [] = none
first (r ∷ rs) = some r

module _ {W : Type 0} where
  paired :
      List UserDecisionRequest → List (Proposal W) → List (Proposal W × Option UserDecisionRequest)
  unfolding pending_for
  paired requests [] = []
  paired requests (p ∷ ps) =
      (p, first (sort_by (λ a b. leb b.created_at a.created_at) (pending_for p.id requests)))
      ∷ paired requests ps

  unfoldable pub list_pending_proposals :
      String → Store W → List (Proposal W × Option UserDecisionRequest)
  unfolding awaiting paired
  list_pending_proposals thread_id store =
      paired store.requests
        (sort_by (λ a b. leb b.created_at a.created_at) (awaiting thread_id store.proposals))
