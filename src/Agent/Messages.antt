-- ===== src/Agent/Messages.antt =====
-- agent/provider.py and agent/runtime.py: the messages between the runtime and a model, and the
-- events that are recorded of a turn.
use helios_home.Prelude.{ℕ, suc, String, Bool, none, some, List, [], ◌∷◌}
use helios_home.Prelude.Json.{Fields}
use helios_home.WorkStore.{Store, texts}
use helios_home.WorkStore.Decisions.{proposal_with, request_with}
use helios_home.Agent.Tools.{Exception, ToolExecutionResult}

-- The actions of a model; `other` is an action that is neither of the two.
pub data Action (W : Type 0) : Type 0 where
  final_answer : String → Action W
  tool_call : String → Fields W → Action W
  other : Action W

pub record ModelObservation (W : Type 0) : Type 0 where
  pub tool_name : String
  pub output : Fields W
  pub invocation_id : String
  pub ui_events : List (String × Fields W)
  pub error : String

pub record ModelRequest (W : Type 0) : Type 0 where
  pub user_message : String
  pub context : Fields W
  pub available_tools : List String
  pub observations : List (ModelObservation W)
  pub force_final : Bool
  pub max_tool_iterations : ℕ

-- What is recorded of a turn, with the parts of the payloads that the runtime decides on.
pub data Event (W : Type 0) : Type 0 where
  agent_runtime_started : String → ℕ → List String → Event W
  model_request : (iteration : ℕ) (force_final : Bool) → Event W
  provider_error : (iteration : ℕ) (message : String) → Event W
  provider_response : ℕ → Event W
  model_action : ℕ → Action W → Event W
  model_action_validation :
      (iteration : ℕ) (tool_name : String) (valid : Bool) (reason : String) → Event W
  tool_started : String → Fields W → Event W
  tool_failed : String → Exception → Event W
  tool_finished : (tool_name invocation_id : String) (output : Fields W) → Event W
  ui_events : List (String × Fields W) → Event W
  proposal_created decision_request_created : String → Event W
  model_observation : ModelObservation W → Event W
  runtime_warning : ℕ → ℕ → Event W
  model_final_answer : (after_max_iterations : Bool) → Event W

module _ {W : Type 0} where
  unfoldable pub created_proposals : Store W → List String → List (Event W)
  created_proposals store [] = []
  created_proposals store (ref ∷ refs) = elim (proposal_with ref store.proposals) [
    | none ↦ created_proposals store refs
    | some _ ↦ proposal_created ref ∷ created_proposals store refs
  ]

  unfoldable pub created_requests : Store W → List String → List (Event W)
  created_requests store [] = []
  created_requests store (ref ∷ refs) = elim (request_with ref store.requests) [
    | none ↦ created_requests store refs
    | some _ ↦ decision_request_created ref ∷ created_requests store refs
  ]

  abbrev pub ui_payload : List (String × Fields W) → List (Event W)
  ui_payload [] = []
  ui_payload events = ui_events events ∷ []

  -- `_tool_validation_observation`
  unfoldable pub rejection : String → String → ModelObservation W
  rejection name reason = record {
    tool_name = name;
    output = texts (
        ("status", "rejected")
        ∷ ("error_type", "tool_validation_error")
        ∷ ("tool_name", name)
        ∷ []);
    invocation_id = "";
    ui_events = [];
    error = reason;
  }

  abbrev pub failure : String → Exception → ModelObservation W
  failure name e = record {
    tool_name = name;
    output = texts (("status", "failed") ∷ ("error_type", e.error_type) ∷ ("tool_name", name) ∷ []);
    invocation_id = "";
    ui_events = [];
    error = e.message;
  }

  abbrev pub success : String → String → ToolExecutionResult W → ModelObservation W
  success name id result = record {
    tool_name = name;
    output = result.output;
    invocation_id = id;
    ui_events = result.ui_events;
    error = "";
  }

  abbrev pub count : List (ModelObservation W) → ℕ
  count [] = 0
  count (o ∷ os) = suc (count os)
