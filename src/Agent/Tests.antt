-- ===== src/Agent/Tests.antt =====
-- The theorems of the agent at a turn of two iterations.
use helios_home.Prelude.{ℕ, zero, suc, ◌+◌, ◌≤◌, String, Bool, true, false, [], ◌∷◌, ℤ, ok, err}
use helios_home.Prelude.Json.{text, end, field}
use helios_home.WorkStore.{Store}
use helios_home.Agent.Tools.{AgentTool}
use helios_home.Agent.Tools.Settled.{AreSettled}
use helios_home.Agent.Messages.{Action, final_answer, tool_call}
use helios_home.Agent.Runtime.{State, Setting, run}
use helios_home.Agent.Runtime.Bounds.{starts, requests, run_bounds}
use helios_home.Agent.Runtime.Allowed.{AreAllowed, run-AreAllowed}
use helios_home.Agent.Runtime.Ends.{Obliges, Answers, run-Answers}
use helios_home.Agent.Runtime.Kept.{run-AreSettled}

abbrev query : AgentTool ℤ ℕ
query = record {
  name = "home_graph.query";
  risk_level = "low";
  confirmation_policy = "none";
  contexts = "setup" ∷ "operation" ∷ [];
  validate = λ arguments. ok arguments;
  execute = λ mode arguments calls. (
    ok (record {
      output = field "status" (text "ok") end;
      ui_events = [];
      created_proposal_refs = "p1" ∷ [];
      created_decision_request_refs = [];
    }),
    suc calls,
  );
}

-- A tool that raises.
abbrev broken : AgentTool ℤ ℕ
broken = record query {
  name = "device.assess";
  execute = λ mode arguments calls.
      (err (record { error_type = "TimeoutError"; message = "timed out" }), calls);
}

abbrev answer : Bool → ℕ → Action ℤ
answer true turn = final_answer "done"
answer false zero = tool_call "home_graph.query" end
answer false (suc zero) = tool_call "device.assess" end
answer false (suc (suc turn)) = final_answer "done"

abbrev empty : Store ℤ
empty = record {
  tasks = [];
  steps = [];
  blockers = [];
  proposals = [];
  requests = [];
  decisions = [];
  entities = [];
  evidence = [];
  audit = [];
}

abbrev setting : Setting ℤ ℕ ℕ
setting = record {
  registry = query ∷ broken ∷ [];
  mode = "operation";
  user_message = "How much power is used?";
  max_tool_iterations = 2;
  now = 10;
  fresh = λ n. "tool-1";
  build_context = λ world tools. end;
  next_action = λ turn request. (ok (answer request.force_final turn), suc turn);
  store = λ world. empty;
}

abbrev before : State ℤ ℕ ℕ
before = record {
  provider = 0;
  database = record { invocations = []; ui_events = []; audit = []; world = 0 };
  events = [];
  drawn = 0;
}

answer-Obliges :
    (force_final : Bool) (turn : ℕ)
    → Obliges {E = String} force_final (ok (answer force_final turn))
answer-Obliges true turn = tt
answer-Obliges false zero = tt
answer-Obliges false (suc zero) = tt
answer-Obliges false (suc (suc turn)) = tt

run_bounds_example :
    (starts (run setting before).1.events ≤ starts before.events + setting.max_tool_iterations)
    × (requests (run setting before).1.events
        ≤ requests before.events + (1 + setting.max_tool_iterations))
run_bounds_example = run_bounds setting before

run-AreAllowed_example : AreAllowed setting (run setting before).1.events
run-AreAllowed_example = run-AreAllowed setting before tt

run-Answers_example : Answers (run setting before)
run-Answers_example =
    run-Answers setting before (λ turn request. answer-Obliges request.force_final turn)

run-AreSettled_example : AreSettled (run setting before).1.database.invocations
run-AreSettled_example = run-AreSettled setting before tt
