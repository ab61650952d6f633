-- ===== src/WorkStore.antt =====
-- work_store/service.py: the rows of the agent's tasks, proposals and user decisions, and how tasks
-- and their steps are opened and closed. A time is a number of microseconds; a random identifier
-- (new_ref) and the clock are arguments.
pub mod Proposals
pub mod Candidates
pub mod Decisions
mod Tests
use helios_home.Prelude.{
  ℕ, String, Bool, true, false, Option, none, some, List, [], ◌∷◌, truthy, str_eq, if◌then◌else◌,
}
use helios_home.Prelude.Json.{Fields, Json, text, end, field, put}

pub record AgentTask (W : Type 0) : Type 0 where
  pub id : String
  pub site_id : ℕ
  pub thread_id : Option String
  pub turn_id : Option String
  pub task_type : String
  pub title : String
  pub goal : String
  pub status : String
  pub target_refs : List String
  pub context : Fields W
  pub created_at : ℕ
  pub updated_at : ℕ
  pub completed_at : Option ℕ

pub record TaskStep (W : Type 0) : Type 0 where
  pub id : String
  pub task_id : String
  pub step_key : String
  pub title : String
  pub status : String
  pub summary : String
  pub result : Fields W
  pub created_at : ℕ
  pub updated_at : ℕ

pub record Blocker (W : Type 0) : Type 0 where
  pub id : String
  pub task_id : Option String
  pub subject_ref : String
  pub blocker_type : String
  pub summary : String
  pub status : String
  pub details : Fields W
  pub created_at : ℕ

pub record Proposal (W : Type 0) : Type 0 where
  pub id : String
  pub site_id : ℕ
  pub thread_id : Option String
  pub turn_id : Option String
  pub task_id : Option String
  pub proposal_type : String
  pub title : String
  pub summary : String
  pub payload : Fields W
  pub target_refs : List String
  pub risk_level : String
  pub status : String
  pub created_at : ℕ
  pub updated_at : ℕ
  pub resolved_at : Option ℕ

pub record UserDecisionRequest : Type 0 where
  pub id : String
  pub site_id : ℕ
  pub thread_id : Option String
  pub turn_id : Option String
  pub proposal_id : String
  pub question : String
  pub options : List String
  pub risk_level : String
  pub status : String
  pub created_at : ℕ
  pub decided_at : Option ℕ

pub record UserDecision (W : Type 0) : Type 0 where
  pub id : String
  pub request_id : String
  pub proposal_id : String
  pub decision : String
  pub actor : String
  pub comment : String
  pub details : Fields W
  pub created_at : ℕ

pub record HomeGraphEntity (W : Type 0) : Type 0 where
  pub id : String
  pub site_id : ℕ
  pub entity_type : String
  pub source_type : String
  pub source_id : String
  pub display_name : String
  pub semantic_type : String
  pub status : String
  pub properties : Fields W
  pub created_at : ℕ
  pub updated_at : ℕ

-- The confidence is left out: it is 1 in every row that is made here.
pub record HomeGraphEvidence (W : Type 0) : Type 0 where
  pub id : String
  pub site_id : ℕ
  pub subject_ref : String
  pub evidence_type : String
  pub source : String
  pub summary : String
  pub payload : Fields W
  pub trust : String
  pub created_at : ℕ

pub record AuditEvent (W : Type 0) : Type 0 where
  pub actor : String
  pub action : String
  pub target_type : String
  pub target_id : String
  pub summary : String
  pub details : Fields W
  pub created_at : ℕ

-- The tables of the session.
pub record Store (W : Type 0) : Type 0 where
  pub tasks : List (AgentTask W)
  pub steps : List (TaskStep W)
  pub blockers : List (Blocker W)
  pub proposals : List (Proposal W)
  pub requests : List UserDecisionRequest
  pub decisions : List (UserDecision W)
  pub entities : List (HomeGraphEntity W)
  pub evidence : List (HomeGraphEvidence W)
  pub audit : List (AuditEvent W)

-- A dictionary of texts.
abbrev pub texts : {W : Type 0} → List (String × String) → Fields W
texts [] = end
texts ((key, value) ∷ rest) = field key (text value) (texts rest)

module _ {W : Type 0} where
  unfoldable pub create_task :
      (id : String) (now site_id : ℕ) (task_type title goal : String)
      (thread_id turn_id : Option String) (target_refs : List String) (context : Fields W)
      → AgentTask W
  create_task id now site_id task_type title goal thread_id turn_id target_refs context = record {
    id = id;
    site_id = site_id;
    thread_id = thread_id;
    turn_id = turn_id;
    task_type = task_type;
    title = title;
    goal = goal;
    status = "running";
    target_refs = target_refs;
    context = context;
    created_at = now;
    updated_at = now;
    completed_at = none;
  }

  unfoldable pub add_task_step :
      (id : String) (now : ℕ) (task_id step_key title status summary : String) (result : Fields W)
      → TaskStep W
  add_task_step id now task_id step_key title status summary result = record {
    id = id;
    task_id = task_id;
    step_key = step_key;
    title = title;
    status = status;
    summary = summary;
    result = result;
    created_at = now;
    updated_at = now;
  }

  unfoldable pub add_blocker :
      (id : String) (now : ℕ) (blocker_type summary : String) (task_id : Option String)
      (subject_ref : String) (details : Fields W)
      → Blocker W
  add_blocker id now blocker_type summary task_id subject_ref details = record {
    id = id;
    task_id = task_id;
    subject_ref = subject_ref;
    blocker_type = blocker_type;
    summary = summary;
    status = "open";
    details = details;
    created_at = now;
  }

  -- `if summary: step.summary = summary`, and `if result is not None: step.result = result`
  abbrev result_or : Option (Fields W) → Fields W → Fields W
  result_or none old = old
  result_or (some result) old = result

  unfoldable pub complete_task_step :
      (now : ℕ) (summary : String) (result : Option (Fields W)) → TaskStep W → TaskStep W
  complete_task_step now summary result step = record step {
    status = "completed";
    summary = if truthy summary then summary else step.summary;
    result = result_or result step.result;
    updated_at = now;
  }

  unfoldable pub fail_task_step :
      (now : ℕ) (summary : String) (result : Fields W) → TaskStep W → TaskStep W
  fail_task_step now summary result step = record step {
    status = "failed";
    summary = summary;
    result = result;
    updated_at = now;
  }

  abbrev noted : String → String → Fields W → Fields W
  noted key value context = if truthy value then put context key (text value) else context

  unfoldable pub complete_task : (now : ℕ) (summary : String) → AgentTask W → AgentTask W
  complete_task now summary task = record task {
    status = "completed";
    completed_at = some now;
    updated_at = now;
    context = noted "completion_summary" summary task.context;
  }

  unfoldable pub fail_task :
      (now : ℕ) (summary error_type error_message : String) → AgentTask W → AgentTask W
  fail_task now summary error_type error_message task = record task {
    status = "failed";
    completed_at = some now;
    updated_at = now;
    context =
        noted "error_message" error_message
          (noted "error_type" error_type (put task.context "failure_summary" (text summary)));
  }
