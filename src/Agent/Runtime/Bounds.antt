-- ===== src/Agent/Runtime/Bounds.antt =====
-- How often the loop asks the model, and which tools it starts.
use helios_home.Prelude.{
  ℕ, zero, suc, ◌+◌, ◌≤◌, ◌≡◌, refl, String, Bool, true, false, List, [], ◌∷◌, ◌++◌, if◌then◌else◌,
  Result, ok, err, arith,
}
use helios_home.Prelude.Json.{Fields}
use helios_home.Agent.Tools.{available_tools}
use helios_home.Agent.Messages.{
  Action, final_answer, tool_call, other, ModelObservation, Event, agent_runtime_started,
  model_action_validation, model_observation, runtime_warning, model_final_answer, rejection, count,
}
use helios_home.Agent.Runtime.{
  Failure, State, Setting, Outcome, known_mode, recorded, validate_tool_call, execute_tool_call,
  request_model_action, called, concluded, forced_final, acted, iterate, run,
}
use helios_home.Agent.Runtime.Trace.{
  total, on, weight, weight-recorded, weight-execute_tool_call, weight-request_model_action,
}

-- What the iterations that are left may add.
abbrev pub times : ℕ → ℕ → ℕ
times zero k = 0
times (suc n) k = k + times n k

module _ {W X P : Type 0} (ask : Bool → ℕ) (start : String → ℕ) where
  checked_le :
      (c : Setting W X P) (k : ℕ) (name reason : String) (arguments : Fields W) (s : State W X P)
      (valid : Bool)
      → (valid ≡ true → start name ≤ k)
      → weight ask start
          (if valid
            then execute_tool_call c name arguments s
            else (rejection name reason, recorded (model_observation (rejection name reason)) s)).1
        ≤ weight ask start s + k
  checked_le c k name reason arguments s true cost =
      omega (arith, cost refl, weight-execute_tool_call ask start c name arguments s)
  checked_le c k name reason arguments s false cost =
      omega (arith, weight-recorded ask start (model_observation (rejection name reason)) s)

  called_le :
      (c : Setting W X P) (k iteration : ℕ) (name : String) (arguments : Fields W) (s : State W X P)
      → ((name : String) → (validate_tool_call c name).0 ≡ true → start name ≤ k)
      → weight ask start (called c iteration name arguments s).1 ≤ weight ask start s + k
  unfolding called
  called_le c k iteration name arguments s cost =
      let (valid, reason) = validate_tool_call c name in
      let event : Event W = model_action_validation iteration name valid reason in
      omega (
        arith,
        checked_le c k name reason arguments (recorded event s) valid (cost name),
        weight-recorded ask start event s,
      )

  concluded_le :
      (answer : Result Failure (Action W) × State W X P)
      → weight ask start (concluded answer).1 ≤ weight ask start answer.1
  unfolding concluded
  concluded_le (err e, s) = omega arith
  concluded_le (ok (final_answer content), s) =
      omega (arith, weight-recorded ask start (model_final_answer true) s)
  concluded_le (ok (tool_call name arguments), s) = omega arith
  concluded_le (ok other, s) = omega arith

  forced_final_le :
      (c : Setting W X P) (observations : List (ModelObservation W)) (n : ℕ) (s : State W X P)
      → weight ask start (forced_final c observations n s).1 ≤ weight ask start s + ask true
  unfolding forced_final
  forced_final_le c observations n s =
      let warned = recorded (runtime_warning c.max_tool_iterations n) s in
      omega (
        arith,
        concluded_le
            (request_model_action c [] observations true (1 + c.max_tool_iterations) warned),
        weight-request_model_action ask start c [] observations true (1 + c.max_tool_iterations)
            warned,
        weight-recorded ask start (runtime_warning c.max_tool_iterations n) s,
      )

  acted_le :
      (c : Setting W X P) (k rest iteration : ℕ) (observations : List (ModelObservation W))
      (answer : Result Failure (Action W) × State W X P)
      (continue : List (ModelObservation W) → State W X P → Outcome W X P)
      → ((name : String) → (validate_tool_call c name).0 ≡ true → start name ≤ k)
      → ((os : List (ModelObservation W)) (s : State W X P)
          → weight ask start (continue os s).1 ≤ weight ask start s + rest)
      → weight ask start (acted c iteration observations answer continue).1
        ≤ weight ask start answer.1 + (k + rest)
  unfolding acted
  acted_le c k rest iteration observations (err e, s) continue cost later = omega arith
  acted_le c k rest iteration observations (ok (final_answer content), s) continue cost later =
      omega (arith, weight-recorded ask start (model_final_answer false) s)
  acted_le c k rest iteration observations (ok other, s) continue cost later = omega arith
  acted_le c k rest iteration observations (ok (tool_call name arguments), s) continue cost later =
      let done = called c iteration name arguments s in
      omega (
        arith,
        called_le c k iteration name arguments s cost,
        later (observations ++ done.0 ∷ []) done.1,
      )

  iterate_le :
      (c : Setting W X P) (k left iteration : ℕ) (observations : List (ModelObservation W))
      (s : State W X P)
      → ((name : String) → (validate_tool_call c name).0 ≡ true → start name ≤ k)
      → weight ask start (iterate c left iteration observations s).1
        ≤ weight ask start s + (times left (ask false + k) + ask true)
  unfolding iterate
  iterate_le c k zero iteration observations s cost =
      omega (arith, forced_final_le c observations (count observations) s)
  iterate_le c k (suc left) iteration observations s cost =
      let tools = available_tools (known_mode c.mode) c.registry in
      let answer = request_model_action c tools observations false iteration s in
      omega (
        arith,
        acted_le c k (times left (ask false + k) + ask true) iteration observations answer
            (iterate c left (1 + iteration)) cost
            (λ os s'. iterate_le c k left (1 + iteration) os s' cost),
        weight-request_model_action ask start c tools observations false iteration s,
      )

  pub run_le :
      (c : Setting W X P) (k : ℕ) (s : State W X P)
      → ((name : String) → (validate_tool_call c name).0 ≡ true → start name ≤ k)
      → weight ask start (run c s).1
        ≤ weight ask start s + (times c.max_tool_iterations (ask false + k) + ask true)
  unfolding run
  run_le c k s cost =
      let begun : Event W =
        agent_runtime_started (known_mode c.mode) c.max_tool_iterations
          (available_tools (known_mode c.mode) c.registry) in
      omega (
        arith,
        iterate_le c k c.max_tool_iterations 1 [] (recorded begun s) cost,
        weight-recorded ask start begun s,
      )

pub times-zero : (n : ℕ) → times n 0 ≡ 0
times-zero zero = refl
times-zero (suc n) = omega (arith, times-zero n)

times-one : (n : ℕ) → times n 1 ≡ n
times-one zero = refl
times-one (suc n) = omega (arith, times-one n)

module _ {W : Type 0} where
  -- How many tools were started, and how often the model was asked.
  abbrev pub starts : List (Event W) → ℕ
  starts = total (on (λ _. 0) (λ _. 1))

  abbrev pub requests : List (Event W) → ℕ
  requests = total (on (λ _. 1) (λ _. 0))

module _ {W X P : Type 0} where
  -- However the provider and the tools behave, a turn starts at most `max_tool_iterations` tools, and
  -- asks the model at most once more than that.
  pub run_bounds :
      (c : Setting W X P) (s : State W X P)
      → (starts (run c s).1.events ≤ starts s.events + c.max_tool_iterations)
        × (requests (run c s).1.events ≤ requests s.events + (1 + c.max_tool_iterations))
  run_bounds c s = (
    omega (
      arith,
      run_le (λ _. 0) (λ _. 1) c 1 s (λ name _. omega arith),
      times-one c.max_tool_iterations,
    ),
    omega (
      arith,
      run_le (λ _. 1) (λ _. 0) c 0 s (λ name _. omega arith),
      times-one c.max_tool_iterations,
    ),
  )
