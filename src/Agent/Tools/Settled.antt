-- ===== src/Agent/Tools/Settled.antt =====
-- No invocation is left running.
use helios_home.Prelude.{
  ℕ, ◌≡◌, refl, String, Bool, true, false, Option, none, some, List, [], ◌∷◌, str_eq_refl, one_of,
  Result, ok, err, Bool-cases, inl, inr,
}
use helios_home.Prelude.Json.{Fields}
use helios_home.Agent.Tools.{
  AgentTool, ToolInvocation, ToolExecutionResult, Database, Exception, registered, started_with,
  finished_with, ran, execute_registered_tool, checked,
}

module _ {W : Type 0} where
  -- Every invocation is completed or failed, and says when it ended.
  abbrev pub AreSettled : List (ToolInvocation W) → Type 0
  AreSettled [] = Unit
  AreSettled (i ∷ is) =
      (one_of i.status ("completed" ∷ "failed" ∷ []) ≡ true)
      × (ended i.finished_at ≡ true)
      × AreSettled is
    where
      ended : Option ℕ → Bool
      ended none = false
      ended (some _) = true

module _ {W X : Type 0} where
  finished_with-AreSettled :
      (id : String) (now : ℕ) (tool : AgentTool W X) (payload : Fields W) (db : Database W X)
      (done : Result Exception (ToolExecutionResult W) × X)
      → AreSettled db.invocations
      → AreSettled
          (finished_with id now tool (started_with id now tool payload db) done).1.invocations
  unfolding finished_with started_with
  finished_with-AreSettled id now tool payload db (err e, world) h =
      rw (str_eq_refl id) (refl, refl, h)
  finished_with-AreSettled id now tool payload db (ok result, world) h =
      rw (str_eq_refl id) (refl, refl, h)

  ran-AreSettled :
      (id : String) (now : ℕ) (mode : String) (tool : AgentTool W X)
      (validated : Result Exception (Fields W)) (db : Database W X)
      → AreSettled db.invocations
      → AreSettled (ran id now mode tool validated db).1.invocations
  unfolding ran
  ran-AreSettled id now mode tool (err e) db h = h
  ran-AreSettled id now mode tool (ok payload) db h =
      finished_with-AreSettled id now tool payload db
        (tool.execute mode payload (started_with id now tool payload db).world) h

  checked-AreSettled :
      (id : String) (now : ℕ) (mode tool_name : String) (arguments : Fields W)
      (tool : Option (AgentTool W X)) (db : Database W X)
      → AreSettled db.invocations
      → AreSettled (checked id now mode tool_name arguments tool db).1.invocations
  unfolding checked
  checked-AreSettled id now mode tool_name arguments none db h = h
  checked-AreSettled id now mode tool_name arguments (some tool) db h =
      elim (Bool-cases (one_of mode tool.contexts)) [
        | inl allowed ↦ rw allowed (ran-AreSettled id now mode tool (tool.validate arguments) db h)
        | inr denied ↦ rw denied h
      ]

  -- Whatever the tool does, and also when it raises, no invocation is left running: every row is
  -- completed or failed and has the time of its end, if that held before.
  pub execute_registered_tool-AreSettled :
      (registry : List (AgentTool W X)) (id : String) (now : ℕ) (mode tool_name : String)
      (arguments : Fields W) (db : Database W X)
      → AreSettled db.invocations
      → AreSettled
          (execute_registered_tool registry id now mode tool_name arguments db).1.invocations
  unfolding execute_registered_tool
  execute_registered_tool-AreSettled registry id now mode tool_name arguments db h =
      checked-AreSettled id now mode tool_name arguments (registered tool_name registry) db h
