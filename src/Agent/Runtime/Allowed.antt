-- ===== src/Agent/Runtime/Allowed.antt =====
-- Which tools the loop starts.
use helios_home.Prelude.{
  ℕ, ◌≡◌, refl, str_eq, one_of, not, ◌||◌, String, true, false, Option, none, some, List, [], ◌∷◌,
  if◌then◌else◌, arith,
}
use helios_home.Agent.Tools.{AgentTool, registered}
use helios_home.Agent.Messages.{Event, tool_started}
use helios_home.Agent.Runtime.{State, Setting, known_mode, validate_tool_call, run}
use helios_home.Agent.Runtime.Trace.{total, on}
use helios_home.Agent.Runtime.{validated}
use helios_home.Agent.Runtime.Bounds.{run_le, times-zero}

module _ {W X : Type 0} where
  -- What the runtime wants of a tool that it starts: it is registered, the mode of the turn is among its
  -- contexts, and it waits for no decision of the user, except for the tool that prepares one.
  abbrev pub Fits : String → String → Option (AgentTool W X) → Type 0
  Fits mode name none = false ≡ true
  Fits mode name (some tool) =
      (one_of mode tool.contexts ≡ true)
      × ((not (str_eq tool.confirmation_policy "user_decision_required")
            || str_eq name "role.prepare_binding_proposal")
          ≡ true)

  validated-Fits :
      (mode name : String) (tool : Option (AgentTool W X))
      → (validated mode name tool).0 ≡ true
      → Fits mode name tool
  validated-Fits mode name none h = h
  validated-Fits mode name (some tool) h = (ground arith, ground arith)

  Fits-validated :
      (mode name : String) (tool : Option (AgentTool W X))
      → Fits mode name tool
      → (validated mode name tool).0 ≡ true
  Fits-validated mode name none h = h
  Fits-validated mode name (some tool) (m, p) = ground arith

module _ {W X P : Type 0} where
  abbrev pub AreAllowed : Setting W X P → List (Event W) → Type 0
  AreAllowed c [] = Unit
  AreAllowed c (tool_started name _ ∷ es) =
      Fits (known_mode c.mode) name (registered name c.registry) × AreAllowed c es
  AreAllowed c (_ ∷ es) = AreAllowed c es

  abbrev forbidden : Setting W X P → Event W → ℕ
  forbidden c = on (λ _. 0) (λ name. if (validate_tool_call c name).0 then 0 else 1)

  none_forbidden :
      (c : Setting W X P) (es : List (Event W)) → AreAllowed c es → total (forbidden c) es ≡ 0
  unfolding validate_tool_call
  none_forbidden c [] h = refl
  none_forbidden c (tool_started name _ ∷ es) (fits, h) =
      rw (Fits-validated (known_mode c.mode) name (registered name c.registry) fits)
        (omega (arith, none_forbidden c es h))
  none_forbidden c (_ ∷ es) h = omega (arith, none_forbidden c es h)

  all_allowed :
      (c : Setting W X P) (es : List (Event W)) → total (forbidden c) es ≡ 0 → AreAllowed c es
  unfolding validate_tool_call
  all_allowed c [] h = tt
  all_allowed c (tool_started name _ ∷ es) h = (
    validated-Fits (known_mode c.mode) name (registered name c.registry) (ground arith),
    all_allowed c es (ground arith),
  )
  all_allowed c (_ ∷ es) h = all_allowed c es (omega arith)

  -- However the provider and the tools behave, every tool that a turn starts is registered, is meant
  -- for the mode of the turn, and does not wait for a decision of the user, unless it is the tool that
  -- prepares a binding proposal, if that held of the tools started before.
  pub run-AreAllowed :
      (c : Setting W X P) (s : State W X P)
      → AreAllowed c s.events
      → AreAllowed c (run c s).1.events
  run-AreAllowed c s h = all_allowed c (run c s).1.events (
      omega (
        arith,
        run_le (λ _. 0) (λ name. if (validate_tool_call c name).0 then 0 else 1) c 0 s
            (λ name valid. rw valid (omega arith)),
        none_forbidden c s.events h,
        times-zero c.max_tool_iterations,
      ))
