-- ===== src/Agent/Runtime/Trace.antt =====
-- What each operation of a turn adds to the events, weighed by what asks the model and starts a tool.
use helios_home.Prelude.{
  ℕ, ◌+◌, ◌≡◌, ◌∙◌, refl, String, Bool, List, [], ◌∷◌, ◌++◌, Result, ok, err, Option-cases, inl,
  inr, arith,
}
use helios_home.Prelude.Json.{Fields}
use helios_home.WorkStore.{Store}
use helios_home.WorkStore.Decisions.{proposal_with, request_with}
use helios_home.Agent.Tools.{ToolExecutionResult, Database, Exception, execute_registered_tool}
use helios_home.Agent.Messages.{
  Action, ModelObservation, Event, model_request, provider_error, provider_response, model_action,
  tool_started, tool_failed, tool_finished, model_observation, created_proposals, created_requests,
  ui_payload, success, failure,
}
use helios_home.Agent.Runtime.{
  State, Setting, known_mode, recorded, observed, execute_tool_call, answered, request_model_action,
}

module _ {W : Type 0} where
  -- The weight of all the events.
  abbrev pub total : (Event W → ℕ) → List (Event W) → ℕ
  total w [] = 0
  total w (e ∷ es) = w e + total w es

  total-++ :
      (w : Event W → ℕ) (xs ys : List (Event W)) → total w (xs ++ ys) ≡ total w xs + total w ys
  total-++ w [] ys = omega arith
  total-++ w (x ∷ xs) ys = omega (arith, total-++ w xs ys)

  -- Only requests and started tools have a weight.
  abbrev pub on : (Bool → ℕ) → (String → ℕ) → Event W → ℕ
  on ask start (model_request _ force_final) = ask force_final
  on ask start (tool_started name _) = start name
  on ask start _ = 0

  total-created_proposals :
      (ask : Bool → ℕ) (start : String → ℕ) (store : Store W) (refs : List String)
      → total (on ask start) (created_proposals store refs) ≡ 0
  unfolding created_proposals
  total-created_proposals ask start store [] = refl
  total-created_proposals ask start store (ref ∷ refs) =
      elim (Option-cases (proposal_with ref store.proposals)) [
        | inl missing ↦
            rw (missing, created_proposals)
              (omega (arith, total-created_proposals ask start store refs))
        | inr (_, found) ↦
            rw (found, created_proposals)
              (omega (arith, total-created_proposals ask start store refs))
      ]

  total-created_requests :
      (ask : Bool → ℕ) (start : String → ℕ) (store : Store W) (refs : List String)
      → total (on ask start) (created_requests store refs) ≡ 0
  unfolding created_requests
  total-created_requests ask start store [] = refl
  total-created_requests ask start store (ref ∷ refs) =
      elim (Option-cases (request_with ref store.requests)) [
        | inl missing ↦
            rw (missing, created_requests)
              (omega (arith, total-created_requests ask start store refs))
        | inr (_, found) ↦
            rw (found, created_requests)
              (omega (arith, total-created_requests ask start store refs))
      ]

  total-ui_payload :
      (ask : Bool → ℕ) (start : String → ℕ) (events : List (String × Fields W))
      → total (on ask start) (ui_payload events) ≡ 0
  total-ui_payload ask start [] = refl
  total-ui_payload ask start (e ∷ es) = refl

module _ {W X P : Type 0} (ask : Bool → ℕ) (start : String → ℕ) where
  abbrev pub weight : State W X P → ℕ
  weight s = total (on ask start) s.events

  pub weight-recorded :
      (event : Event W) (s : State W X P)
      → weight (recorded event s) ≡ weight s + on ask start event
  unfolding recorded
  weight-recorded event s = omega (arith, total-++ (on ask start) s.events (event ∷ []))

  weight-observed :
      (c : Setting W X P) (name : String)
      (done : Result Exception (String × ToolExecutionResult W) × Database W X) (s : State W X P)
      → weight (observed c name done s).1 ≡ weight s
  unfolding observed
  weight-observed c name (err e, db) s = omega (
    arith,
    total-++ (on ask start) s.events (tool_failed name e ∷ model_observation (failure name e) ∷ []),
  )
  weight-observed c name (ok (id, result), db) s =
      let w : Event W → ℕ = on ask start in
      let store = c.store db.world in
      let proposals = created_proposals store result.created_proposal_refs in
      let requests = created_requests store result.created_decision_request_refs in
      let ui = ui_payload result.ui_events in
      let last : List (Event W) = model_observation (success name id result) ∷ [] in
      omega (
        arith,
        total-++ w s.events
            (tool_finished name id result.output ∷ (ui ++ (proposals ++ (requests ++ last)))),
        total-++ w ui (proposals ++ (requests ++ last)),
        total-++ w proposals (requests ++ last),
        total-++ w requests last,
        total-ui_payload ask start result.ui_events,
        total-created_proposals ask start store result.created_proposal_refs,
        total-created_requests ask start store result.created_decision_request_refs,
      )

  pub weight-execute_tool_call :
      (c : Setting W X P) (name : String) (arguments : Fields W) (s : State W X P)
      → weight (execute_tool_call c name arguments s).1 ≡ weight s + start name
  unfolding execute_tool_call
  weight-execute_tool_call c name arguments s =
      let started = recorded (tool_started name arguments) s in
      weight-observed c name
        (execute_registered_tool c.registry (c.fresh s.drawn) c.now (known_mode c.mode) name
          arguments started.database)
        (record started { drawn = 1 + s.drawn })
      ∙ weight-recorded (tool_started name arguments) s

  weight-answered :
      (iteration : ℕ) (answer : Result String (Action W) × P) (s : State W X P)
      → weight (answered iteration answer s).1 ≡ weight s
  unfolding answered
  weight-answered iteration (err message, p) s =
      omega (arith, weight-recorded (provider_error iteration message) (record s { provider = p }))
  weight-answered iteration (ok action, p) s =
      let responded : State W X P =
        recorded (provider_response iteration) (record s { provider = p }) in
      omega (
        arith,
        weight-recorded (provider_response iteration) (record s { provider = p }),
        weight-recorded (model_action iteration action) responded,
      )

  pub weight-request_model_action :
      (c : Setting W X P) (tools : List String) (observations : List (ModelObservation W))
      (force_final : Bool) (iteration : ℕ) (s : State W X P)
      → weight (request_model_action c tools observations force_final iteration s).1
        ≡ weight s + ask force_final
  unfolding request_model_action
  weight-request_model_action c tools observations force_final iteration s =
      weight-answered iteration _ (recorded (model_request iteration force_final) s)
      ∙ weight-recorded (model_request iteration force_final) s
