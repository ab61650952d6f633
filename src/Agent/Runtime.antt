-- ===== src/Agent/Runtime.antt =====
-- agent/runtime.py: the loop that asks a model for actions and runs the tools that it calls. The
-- provider of the model is outside and keeps a state P of its own; X is the world of the tools.
pub mod Trace
pub mod Bounds
pub mod Allowed
pub mod Kept
pub mod Ends
use helios_home.Prelude.{
  ℕ, zero, suc, ◌+◌, String, Bool, true, false, not, ◌&&◌, Option, none, some, List, [], ◌∷◌, ◌++◌,
  str_eq, one_of, formatted, if◌then◌else◌, Result, ok, err,
}
use helios_home.Prelude.Json.{Fields, Json, text, end, field}
use helios_home.WorkStore.{Store, texts}
use helios_home.WorkStore.Decisions.{proposal_with, request_with}
use helios_home.Agent.Tools.{
  AgentTool, ToolExecutionResult, Database, Exception, registered, available_tools,
  execute_registered_tool,
}
use helios_home.Agent.Messages.{
  Action, final_answer, tool_call, other, ModelObservation, ModelRequest, Event,
  agent_runtime_started, model_request, provider_error, provider_response, model_action,
  model_action_validation, tool_started, tool_failed, tool_finished, ui_events, proposal_created,
  decision_request_created, model_observation, runtime_warning, model_final_answer,
  created_proposals, created_requests, ui_payload, rejection, failure, success, count,
}

-- `ProviderError`, or the two `RuntimeError`s.
pub data Failure : Type 0 where
  provider_failed unsupported_action no_final_answer : Failure

pub record State (W X P : Type 0) : Type 0 where
  pub provider : P
  pub database : Database W X
  pub events : List (Event W)
  pub drawn : ℕ

-- What the runtime is made with, and what it reaches outside.
pub record Setting (W X P : Type 0) : Type 0 where
  pub registry : List (AgentTool W X)
  pub mode : String
  pub user_message : String
  pub max_tool_iterations : ℕ
  pub now : ℕ
  pub fresh : ℕ → String
  pub build_context : X → List String → Fields W
  pub next_action : P → ModelRequest W → Result String (Action W) × P
  pub store : X → Store W

pub record RuntimeResult : Type 0 where
  pub final_answer : String
  pub warned : Bool

abbrev pub Outcome : Type 0 → Type 0 → Type 0 → Type 0
Outcome W X P = Result Failure RuntimeResult × State W X P

-- `mode if mode in {...} else "setup"`
unfoldable pub known_mode : String → String
known_mode mode =
    if one_of mode ("conversation" ∷ "setup" ∷ "commissioning" ∷ "operation" ∷ "debug" ∷ [])
    then mode
    else "setup"

module _ {W X : Type 0} where
  -- `_validate_tool_call`
  abbrev pub validated : String → String → Option (AgentTool W X) → Bool × String
  validated mode name none = (false, formatted ("Unknown agent tool: " ∷ name ∷ []))
  validated mode name (some tool) =
      if not (one_of mode tool.contexts)
      then (false, formatted ("Tool " ∷ name ∷ " is not available in " ∷ mode ∷ " context." ∷ []))
      else if str_eq tool.confirmation_policy "user_decision_required"
          && not (str_eq name "role.prepare_binding_proposal")
      then (
        false,
        formatted (
            "Tool " ∷ name ∷ " requires a user-decision workflow and is not model-applicable."
            ∷ []),
      )
      else (true, "validated")

module _ {W X P : Type 0} where
  unfoldable pub recorded : Event W → State W X P → State W X P
  recorded event s = record s { events = s.events ++ event ∷ [] }

  unfoldable pub validate_tool_call : Setting W X P → String → Bool × String
  unfolding registered known_mode
  validate_tool_call c name = validated (known_mode c.mode) name (registered name c.registry)

  -- What is recorded once a tool has run, and the observation that the model is shown.
  unfoldable pub observed :
      Setting W X P
      → String
      → Result Exception (String × ToolExecutionResult W) × Database W X
      → State W X P
      → ModelObservation W × State W X P
  unfolding created_proposals created_requests
  observed c name (err e, db) s = (
    failure name e,
    record s {
      database = db;
      events = s.events ++ tool_failed name e ∷ model_observation (failure name e) ∷ [];
    },
  )
  observed c name (ok (id, result), db) s =
      let store = c.store db.world in
      (
        success name id result,
        record s {
          database = db;
          events =
              s.events
              ++ (tool_finished name id result.output
                  ∷ (ui_payload result.ui_events
                      ++ (created_proposals store result.created_proposal_refs
                          ++ (created_requests store result.created_decision_request_refs
                              ++ model_observation (success name id result) ∷ []))));
        },
      )

  -- `_execute_tool_call`
  unfoldable pub execute_tool_call :
      Setting W X P → String → Fields W → State W X P → ModelObservation W × State W X P
  unfolding recorded observed
  execute_tool_call c name arguments s =
      let started = recorded (tool_started name arguments) s in
      observed c name
        (execute_registered_tool c.registry (c.fresh s.drawn) c.now (known_mode c.mode) name
          arguments started.database)
        (record started { drawn = 1 + s.drawn })

  -- What follows the answer of the provider in `_request_model_action`.
  answered :
      ℕ → Result String (Action W) × P → State W X P → Result Failure (Action W) × State W X P
  unfolding recorded
  answered iteration (err message, p) s =
      (err provider_failed, recorded (provider_error iteration message) (record s { provider = p }))
  answered iteration (ok action, p) s = (
    ok action,
    recorded (model_action iteration action)
        (recorded (provider_response iteration) (record s { provider = p })),
  )

  unfoldable pub request_model_action :
      Setting W X P
      → List String
      → List (ModelObservation W)
      → Bool
      → ℕ
      → State W X P
      → Result Failure (Action W) × State W X P
  unfolding recorded answered
  request_model_action c tools observations force_final iteration s =
      let request : ModelRequest W = record {
        user_message = c.user_message;
        context = c.build_context s.database.world tools;
        available_tools = tools;
        observations = observations;
        force_final = force_final;
        max_tool_iterations = c.max_tool_iterations;
      } in
      answered iteration (c.next_action s.provider request)
        (recorded (model_request iteration force_final) s)

  -- A tool call: it is validated, and run if it is valid.
  unfoldable pub called :
      Setting W X P → ℕ → String → Fields W → State W X P → ModelObservation W × State W X P
  unfolding validate_tool_call recorded rejection execute_tool_call
  called c iteration name arguments s =
      let (valid, reason) = validate_tool_call c name in
      let checked = recorded (model_action_validation iteration name valid reason) s in
      if valid
      then execute_tool_call c name arguments checked
      else (rejection name reason, recorded (model_observation (rejection name reason)) checked)

  -- After the last iteration: the answer that is asked for must be final.
  concluded : Result Failure (Action W) × State W X P → Outcome W X P
  unfolding recorded
  concluded (err e, s) = (err e, s)
  concluded (ok (final_answer content), s) =
      (ok (record { final_answer = content; warned = true }), recorded (model_final_answer true) s)
  concluded (ok (tool_call name arguments), s) = (err no_final_answer, s)
  concluded (ok other, s) = (err no_final_answer, s)

  unfoldable pub forced_final :
      Setting W X P → List (ModelObservation W) → ℕ → State W X P → Outcome W X P
  unfolding recorded request_model_action concluded
  forced_final c observations count s = concluded (
      request_model_action c [] observations true (1 + c.max_tool_iterations)
        (recorded (runtime_warning c.max_tool_iterations count) s))

  -- What an action does to the loop; `continue` is the rest of it.
  acted :
      Setting W X P
      → ℕ
      → List (ModelObservation W)
      → Result Failure (Action W) × State W X P
      → (List (ModelObservation W) → State W X P → Outcome W X P)
      → Outcome W X P
  unfolding recorded called
  acted c iteration observations (err e, s) continue = (err e, s)
  acted c iteration observations (ok (final_answer content), s) continue = (
    ok (record { final_answer = content; warned = false }),
    recorded (model_final_answer false) s,
  )
  acted c iteration observations (ok other, s) continue = (err unsupported_action, s)
  acted c iteration observations (ok (tool_call name arguments), s) continue =
      let (observation, s') = called c iteration name arguments s in
      continue (observations ++ observation ∷ []) s'

  -- The `for` loop, by the iterations that are left.
  unfoldable pub iterate :
      Setting W X P → ℕ → ℕ → List (ModelObservation W) → State W X P → Outcome W X P
  unfolding acted request_model_action forced_final available_tools known_mode
  iterate c zero iteration observations s = forced_final c observations (count observations) s
  iterate c (suc left) iteration observations s =
      acted c iteration observations
        (request_model_action c (available_tools (known_mode c.mode) c.registry) observations false
          iteration s)
        (iterate c left (1 + iteration))

  -- `AgentRuntime.run`
  unfoldable pub run : Setting W X P → State W X P → Outcome W X P
  unfolding iterate recorded
  run c s = iterate c c.max_tool_iterations 1 [] (
      recorded
        (agent_runtime_started (known_mode c.mode) c.max_tool_iterations
          (available_tools (known_mode c.mode) c.registry))
        s)
