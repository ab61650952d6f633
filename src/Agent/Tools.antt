-- ===== src/Agent/Tools.antt =====
-- agent/tools/registry.py: the registry of tools, and the execution of one. A tool is the program's own
-- interface AgentTool; the validation of its arguments, which pydantic does, is a field of it.
pub mod Settled
use helios_home.Prelude.{
  ℕ, String, Bool, true, false, Option, none, some, List, [], ◌∷◌, ◌++◌, str_eq, one_of, formatted,
  if◌then◌else◌, Result, ok, err,
}
use helios_home.Prelude.Json.{Items, nil, cons, list, text, field, Fields, end}
use helios_home.WorkStore.{AuditEvent, texts}

-- An exception: the name of its class, and its message.
pub record Exception : Type 0 where
  pub error_type : String
  pub message : String

pub record ToolExecutionResult (W : Type 0) : Type 0 where
  pub output : Fields W
  pub ui_events : List (String × Fields W)
  pub created_proposal_refs : List String
  pub created_decision_request_refs : List String

-- `execute` gives what it returns or raises, and the world it leaves; after an exception that is the
-- world that the rollback leaves. X is the world: the other tables, and what the tools act on.
pub record AgentTool (W X : Type 0) : Type 0 where
  pub name : String
  pub risk_level : String
  pub confirmation_policy : String
  pub contexts : List String
  pub validate : Fields W → Result Exception (Fields W)
  pub execute : String → Fields W → X → Result Exception (ToolExecutionResult W) × X

-- A row of `tool_invocations`.
pub record ToolInvocation (W : Type 0) : Type 0 where
  pub id : String
  pub tool_name : String
  pub risk_level : String
  pub confirmation_policy : String
  pub status : String
  pub input_payload : Fields W
  pub output_payload : Option (ToolExecutionResult W)
  pub error : String
  pub started_at : ℕ
  pub finished_at : Option ℕ

pub record Database (W X : Type 0) : Type 0 where
  pub invocations : List (ToolInvocation W)
  pub ui_events : List (String × Fields W)
  pub audit : List (AuditEvent W)
  pub world : X

module _ {W X : Type 0} where
  put_tool : AgentTool W X → List (AgentTool W X) → List (AgentTool W X)
  put_tool tool [] = tool ∷ []
  put_tool tool (t ∷ ts) = if str_eq t.name tool.name then tool ∷ ts else t ∷ put_tool tool ts

  -- `ToolRegistry(tools)`, from the dictionary so far: the last tool of a name stays, in the place of
  -- the first.
  unfoldable pub registry_of : List (AgentTool W X) → List (AgentTool W X) → List (AgentTool W X)
  unfolding put_tool
  registry_of registry [] = registry
  registry_of registry (tool ∷ tools) = registry_of (put_tool tool registry) tools

  -- `ToolRegistry.get`
  unfoldable pub registered : String → List (AgentTool W X) → Option (AgentTool W X)
  registered name [] = none
  registered name (tool ∷ tools) =
      if str_eq tool.name name then some tool else registered name tools

  -- The names that `specs_for_mode` lists.
  unfoldable pub available_tools : String → List (AgentTool W X) → List String
  available_tools mode [] = []
  available_tools mode (tool ∷ tools) =
      let rest = available_tools mode tools in
      if one_of mode tool.contexts then tool.name ∷ rest else rest

module _ {W : Type 0} where
  abbrev items : List String → Items W
  items [] = nil
  items (ref ∷ refs) = cons (text ref) (items refs)

  unfoldable pub put_invocation :
      String
      → (ToolInvocation W → ToolInvocation W)
      → List (ToolInvocation W)
      → List (ToolInvocation W)
  put_invocation id change [] = []
  put_invocation id change (i ∷ is) =
      if str_eq i.id id then change i ∷ is else i ∷ put_invocation id change is

  abbrev audited : String → String → String → Fields W → ℕ → AuditEvent W
  audited action id summary details now = record {
    actor = "agent";
    action = action;
    target_type = "tool_invocation";
    target_id = id;
    summary = summary;
    details = details;
    created_at = now;
  }

  abbrev pub failed_invocation : Exception → ℕ → ToolInvocation W → ToolInvocation W
  failed_invocation e now i = record i {
    status = "failed";
    error = e.message;
    finished_at = some now;
  }

  abbrev pub completed_invocation : ToolExecutionResult W → ℕ → ToolInvocation W → ToolInvocation W
  completed_invocation result now i = record i {
    status = "completed";
    output_payload = some result;
    finished_at = some now;
  }

module _ {W X : Type 0} where
  -- The invocation is stored and committed before the tool runs.
  unfoldable pub started_with : String → ℕ → AgentTool W X → Fields W → Database W X → Database W X
  started_with id now tool payload db = record db {
    invocations =
        record {
          id = id;
          tool_name = tool.name;
          risk_level = tool.risk_level;
          confirmation_policy = tool.confirmation_policy;
          status = "running";
          input_payload = payload;
          output_payload = none;
          error = "";
          started_at = now;
          finished_at = none;
        }
        ∷ db.invocations;
    audit =
        audited "start_tool_invocation" id (formatted ("Started " ∷ tool.name ∷ "." ∷ []))
          (texts (
            ("tool_name", tool.name)
            ∷ ("risk_level", tool.risk_level)
            ∷ ("confirmation_policy", tool.confirmation_policy)
            ∷ []))
          now
        ∷ db.audit;
  }

  -- What is stored when the tool has run, and what is returned or raised again. The result is JSON, so
  -- its encoding does not raise, and the commit of it succeeds.
  unfoldable pub finished_with :
      String
      → ℕ
      → AgentTool W X
      → Database W X
      → Result Exception (ToolExecutionResult W) × X
      → Result Exception (String × ToolExecutionResult W) × Database W X
  unfolding put_invocation
  finished_with id now tool db (err e, world) = (
    err e,
    record db {
      invocations = put_invocation id (failed_invocation e now) db.invocations;
      audit =
          audited "fail_tool_invocation" id (formatted (tool.name ∷ " failed." ∷ []))
            (texts (("error", e.message) ∷ ("error_type", e.error_type) ∷ [])) now
          ∷ db.audit;
      world = world;
    },
  )
  finished_with id now tool db (ok result, world) = (
    ok (id, result),
    record db {
      invocations = put_invocation id (completed_invocation result now) db.invocations;
      ui_events = db.ui_events ++ result.ui_events;
      audit =
          audited "complete_tool_invocation" id (formatted ("Completed " ∷ tool.name ∷ "." ∷ []))
            (field "tool_name" (text tool.name) (
              field "created_proposal_refs" (list (items result.created_proposal_refs)) (
                field "created_decision_request_refs"
                  (list (items result.created_decision_request_refs)) end)))
            now
          ∷ db.audit;
      world = world;
    },
  )

  ran :
      String
      → ℕ
      → String
      → AgentTool W X
      → Result Exception (Fields W)
      → Database W X
      → Result Exception (String × ToolExecutionResult W) × Database W X
  unfolding started_with finished_with
  ran id now mode tool (err e) db = (err e, db)
  ran id now mode tool (ok payload) db =
      let committed = started_with id now tool payload db in
      finished_with id now tool committed (tool.execute mode payload committed.world)

  checked :
      String
      → ℕ
      → String
      → String
      → Fields W
      → Option (AgentTool W X)
      → Database W X
      → Result Exception (String × ToolExecutionResult W) × Database W X
  unfolding ran
  checked id now mode tool_name arguments none db = (
    err (record {
      error_type = "ValueError";
      message = formatted ("Unknown agent tool: " ∷ tool_name ∷ []);
    }),
    db,
  )
  checked id now mode tool_name arguments (some tool) db =
      if one_of mode tool.contexts then ran id now mode tool (tool.validate arguments) db else (
        err (record {
          error_type = "PermissionError";
          message =
              formatted ("Tool " ∷ tool_name ∷ " is not available in " ∷ mode ∷ " context." ∷ []);
        }),
        db,
      )

  unfoldable pub execute_registered_tool :
      (registry : List (AgentTool W X)) (id : String) (now : ℕ) (mode tool_name : String)
      (arguments : Fields W)
      → Database W X
      → Result Exception (String × ToolExecutionResult W) × Database W X
  unfolding registered checked
  execute_registered_tool registry id now mode tool_name arguments db =
      checked id now mode tool_name arguments (registered tool_name registry) db
