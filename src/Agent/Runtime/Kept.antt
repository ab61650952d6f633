-- ===== src/Agent/Runtime/Kept.antt =====
-- What every tool keeps of the database, a turn keeps.
use helios_home.Prelude.{
  ℕ, zero, suc, ◌+◌, String, Bool, true, false, List, [], Result, ok, err, if◌then◌else◌,
}
use helios_home.Prelude.Json.{Fields}
use helios_home.Agent.Messages.{
  Action, final_answer, tool_call, other, ModelObservation, model_request, model_observation,
  model_action_validation, rejection, runtime_warning, agent_runtime_started, count,
}
use helios_home.Agent.Tools.{
  Database, Exception, ToolExecutionResult, available_tools, execute_registered_tool,
}
use helios_home.Agent.Tools.Settled.{AreSettled, execute_registered_tool-AreSettled}
use helios_home.Agent.Runtime.{
  Failure, State, Setting, Outcome, known_mode, recorded, validate_tool_call, observed, answered,
  execute_tool_call, request_model_action, called, concluded, forced_final, acted, iterate, run,
}

module _ {W X P : Type 0} (c : Setting W X P) (I : Database W X → Type 0) where
  -- The hypothesis of what follows.
  abbrev Keeps : Type 0
  Keeps =
      (id name : String) (arguments : Fields W) (db : Database W X)
      → I db
      → I (execute_registered_tool c.registry id c.now (known_mode c.mode) name arguments db).1

  observed-keeps :
      (name : String) (done : Result Exception (String × ToolExecutionResult W) × Database W X)
      (s : State W X P)
      → I done.1
      → I (observed c name done s).1.database
  unfolding observed
  observed-keeps name (err e, db) s h = h
  observed-keeps name (ok (id, result), db) s h = h

  checked-keeps :
      (name reason : String) (arguments : Fields W) (s : State W X P) (valid : Bool)
      → Keeps
      → I s.database
      → I
          (if valid then execute_tool_call c name arguments s else (
            rejection name reason,
            recorded (model_observation (rejection name reason)) s,
          )).1.database
  unfolding execute_tool_call recorded
  checked-keeps name reason arguments s true keeps h =
      observed-keeps name _ _ (keeps (c.fresh s.drawn) name arguments s.database h)
  checked-keeps name reason arguments s false keeps h = h

  called-keeps :
      (iteration : ℕ) (name : String) (arguments : Fields W) (s : State W X P)
      → Keeps
      → I s.database
      → I (called c iteration name arguments s).1.database
  unfolding called recorded
  called-keeps iteration name arguments s keeps h =
      let (valid, reason) = validate_tool_call c name in
      checked-keeps name reason arguments
        (recorded (model_action_validation iteration name valid reason) s) valid keeps h

  request-keeps :
      (tools : List String) (observations : List (ModelObservation W)) (force_final : Bool)
      (iteration : ℕ) (s : State W X P)
      → I s.database
      → I (request_model_action c tools observations force_final iteration s).1.database
  unfolding request_model_action recorded
  request-keeps tools observations force_final iteration s h = answered-keeps _ h
    where
      answered-keeps :
          (answer : Result String (Action W) × P)
          → I s.database
          → I
              (answered iteration answer
                (recorded (model_request iteration force_final) s)).1.database
      answered-keeps (err message, p) h' = h'
      answered-keeps (ok action, p) h' = h'

  concluded-keeps :
      (answer : Result Failure (Action W) × State W X P)
      → I answer.1.database
      → I (concluded answer).1.database
  unfolding concluded recorded
  concluded-keeps (err e, s) h = h
  concluded-keeps (ok (final_answer content), s) h = h
  concluded-keeps (ok (tool_call name arguments), s) h = h
  concluded-keeps (ok other, s) h = h

  acted-keeps :
      (iteration : ℕ) (observations : List (ModelObservation W))
      (answer : Result Failure (Action W) × State W X P)
      (continue : List (ModelObservation W) → State W X P → Outcome W X P)
      → Keeps
      → I answer.1.database
      → ((os : List (ModelObservation W)) (s : State W X P)
          → I s.database
          → I (continue os s).1.database)
      → I (acted c iteration observations answer continue).1.database
  unfolding acted recorded
  acted-keeps iteration observations (err e, s) continue keeps h later = h
  acted-keeps iteration observations (ok (final_answer content), s) continue keeps h later = h
  acted-keeps iteration observations (ok other, s) continue keeps h later = h
  acted-keeps iteration observations (ok (tool_call name arguments), s) continue keeps h later =
      later _ _ (called-keeps iteration name arguments s keeps h)

  iterate-keeps :
      (left iteration : ℕ) (observations : List (ModelObservation W)) (s : State W X P)
      → Keeps
      → I s.database
      → I (iterate c left iteration observations s).1.database
  unfolding iterate forced_final recorded
  iterate-keeps zero iteration observations s keeps h = concluded-keeps _ (
      request-keeps [] observations true (1 + c.max_tool_iterations)
        (recorded (runtime_warning c.max_tool_iterations (count observations)) s) h)
  iterate-keeps (suc left) iteration observations s keeps h =
      acted-keeps iteration observations _ (iterate c left (1 + iteration)) keeps
        (request-keeps (available_tools (known_mode c.mode) c.registry) observations false iteration
          s h)
        (λ os s' h'. iterate-keeps left (1 + iteration) os s' keeps h')

module _ {W X P : Type 0} where
  -- A turn leaves no invocation running, however it ends: every row is completed or failed and has the
  -- time of its end, if that held before.
  pub run-AreSettled :
      (c : Setting W X P) (s : State W X P)
      → AreSettled s.database.invocations
      → AreSettled (run c s).1.database.invocations
  unfolding run recorded
  run-AreSettled c s h =
      iterate-keeps c (λ db. AreSettled db.invocations) c.max_tool_iterations 1 []
        (recorded
          (agent_runtime_started (known_mode c.mode) c.max_tool_iterations
            (available_tools (known_mode c.mode) c.registry))
          s)
        (λ id name arguments db h'.
          execute_registered_tool-AreSettled c.registry id c.now (known_mode c.mode) name arguments
            db h')
        h
