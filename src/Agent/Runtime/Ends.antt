-- ===== src/Agent/Runtime/Ends.antt =====
-- A turn ends with a final answer.
use helios_home.Prelude.{
  ℕ, zero, suc, ◌+◌, ◌≡◌, refl, String, Bool, true, false, List, [], ◌∷◌, ◌++◌, Result, ok, err,
  arith,
}
use helios_home.Agent.Messages.{
  Action, final_answer, tool_call, other, ModelObservation, ModelRequest, runtime_warning, count,
}
use helios_home.Agent.Tools.{available_tools}
use helios_home.Agent.Runtime.{
  Failure, State, Setting, RuntimeResult, Outcome, known_mode, recorded, answered,
  request_model_action, called, concluded, forced_final, acted, iterate, run,
}

module _ {W : Type 0} where
  -- What a provider promises: no error, a final answer when one is forced, and else a final answer or a
  -- tool call.
  abbrev pub Obliges : {E : Type 0} → Bool → Result E (Action W) → Type 0
  Obliges force_final (ok (final_answer _)) = Unit
  Obliges false (ok (tool_call _ _)) = Unit
  Obliges _ _ = false ≡ true

abbrev pub Answers : {W X P : Type 0} → Outcome W X P → Type 0
Answers o = (r : RuntimeResult) × (o.0 ≡ ok r)

module _ {W X P : Type 0} where
  answered-Obliges :
      (force_final : Bool) (iteration : ℕ) (answer : Result String (Action W) × P) (s : State W X P)
      → Obliges force_final answer.0
      → Obliges force_final (answered iteration answer s).0
  unfolding answered
  answered-Obliges force_final iteration (ok action, p) s h = h
  answered-Obliges true iteration (err message, p) s h = h
  answered-Obliges false iteration (err message, p) s h = h

  concluded-Answers :
      (answer : Result Failure (Action W) × State W X P)
      → Obliges true answer.0
      → Answers (concluded answer)
  unfolding concluded
  concluded-Answers (ok (final_answer content), s) h = (_, refl)
  concluded-Answers (ok (tool_call name arguments), s) h = ground (arith, h)
  concluded-Answers (ok other, s) h = ground (arith, h)
  concluded-Answers (err e, s) h = ground (arith, h)

  acted-Answers :
      (c : Setting W X P) (iteration : ℕ) (observations : List (ModelObservation W))
      (answer : Result Failure (Action W) × State W X P)
      (continue : List (ModelObservation W) → State W X P → Outcome W X P)
      → Obliges false answer.0
      → ((os : List (ModelObservation W)) (s : State W X P) → Answers (continue os s))
      → Answers (acted c iteration observations answer continue)
  unfolding acted
  acted-Answers c iteration observations (ok (final_answer content), s) continue h later = (_, refl)
  acted-Answers c iteration observations (ok (tool_call name arguments), s) continue h later =
      let done = called c iteration name arguments s in later (observations ++ done.0 ∷ []) done.1
  acted-Answers c iteration observations (ok other, s) continue h later = ground (arith, h)
  acted-Answers c iteration observations (err e, s) continue h later = ground (arith, h)

  request-Obliges :
      (c : Setting W X P) (tools : List String) (observations : List (ModelObservation W))
      (force_final : Bool) (iteration : ℕ) (s : State W X P)
      → ((p : P) (r : ModelRequest W) → Obliges r.force_final (c.next_action p r).0)
      → Obliges force_final (request_model_action c tools observations force_final iteration s).0
  unfolding request_model_action recorded
  request-Obliges c tools observations force_final iteration s obliging =
      answered-Obliges force_final iteration _ _ (obliging s.provider _)

  iterate-Answers :
      (c : Setting W X P) (left iteration : ℕ) (observations : List (ModelObservation W))
      (s : State W X P)
      → ((p : P) (r : ModelRequest W) → Obliges r.force_final (c.next_action p r).0)
      → Answers (iterate c left iteration observations s)
  unfolding iterate forced_final
  iterate-Answers c zero iteration observations s obliging = concluded-Answers _ (
      request-Obliges c [] observations true (1 + c.max_tool_iterations)
        (recorded (runtime_warning c.max_tool_iterations (count observations)) s) obliging)
  iterate-Answers c (suc left) iteration observations s obliging =
      acted-Answers c iteration observations _ (iterate c left (1 + iteration))
        (request-Obliges c (available_tools (known_mode c.mode) c.registry) observations false
          iteration s obliging)
        (λ os s'. iterate-Answers c left (1 + iteration) os s' obliging)

  -- A turn ends with a final answer, whatever the tools do, unknown tools and tools that raise included,
  -- if the provider never fails, answers with a final answer when one is forced, and else with a final
  -- answer or a tool call.
  pub run-Answers :
      (c : Setting W X P) (s : State W X P)
      → ((p : P) (r : ModelRequest W) → Obliges r.force_final (c.next_action p r).0)
      → Answers (run c s)
  unfolding run
  run-Answers c s obliging = iterate-Answers c c.max_tool_iterations 1 [] _ obliging
