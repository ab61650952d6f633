-- ===== src/WorkStore/Decisions/Outcome.antt =====
-- When a decision is recorded, and what it leaves behind.
use helios_home.Prelude.{
  ◌↔◌, ◌∙◌, ℕ, ◌≡◌, refl, sym, ap, String, Bool, true, false, ◌&&◌, Option, none, some, [], ◌∷◌,
  str_eq, one_of, strip, lower, Bool-cases, Option-cases, inl, inr, ok, truthy,
}
use helios_home.Prelude.Float.{Float}
use helios_home.Prelude.Json.{Repr}
use helios_home.WorkStore.{Proposal, UserDecisionRequest, Store}
use helios_home.WorkStore.Candidates.{
  Drawn, Reading, Accepted, accept, find_open_commissioning_task,
  materialize_approved_role_candidate, read_payload,
}
use helios_home.WorkStore.Decisions.{
  request_with, put_request, put_proposal, proposal_with, decided, decided_request,
  decided_proposal, decision_row, decide, decide_as, record_user_decision,
}

-- Two stores with the same requests, proposals and decisions.
abbrev pub SameDecisions : {W : Type 0} → Store W → Store W → Type 0
SameDecisions a b =
    (a.requests ≡ b.requests) × (a.proposals ≡ b.proposals) × (a.decisions ≡ b.decisions)

-- The checks that a decision passes.
pub record Passes {W : Type 0} (request_id decision : String) (store : Store W) : Type 0 where
  pub request : UserDecisionRequest
  pub proposal : Proposal W
  pub asked : request_with request_id store.requests ≡ some request
  pub proposed : proposal_with request.proposal_id store.proposals ≡ some proposal
  pub pending : str_eq request.status "pending" ≡ true
  pub known : one_of (lower (strip decision)) ("approve" ∷ "reject" ∷ []) ≡ true

module _ {W : Type 0} ⦃fl : Float W⦄ ⦃r : Repr W⦄
    (role_candidate_ref : ℕ → String → String → String) where
  accept-SameDecisions :
      (drawn : Drawn) (ref : String) (proposal : Proposal W) (id : String) (reading : Reading)
      (store : Store W)
      → SameDecisions (accept drawn ref proposal id reading store).1 store
  unfolding accept
  accept-SameDecisions drawn ref proposal id reading store =
      elim (Option-cases (find_open_commissioning_task proposal.site_id ref store.tasks)) [
        | inl new ↦ rw new (refl, refl, refl)
        | inr old ↦ rw old.1 (refl, refl, refl)
      ]

  materialize-SameDecisions :
      (drawn : Drawn) (proposal : Proposal W) (id : String) (store : Store W)
      → SameDecisions
          (materialize_approved_role_candidate role_candidate_ref drawn proposal id store).1
          store
  unfolding materialize_approved_role_candidate
  materialize-SameDecisions drawn proposal id store =
      let reading = read_payload proposal.payload in
      elim (Bool-cases (str_eq proposal.proposal_type "role_binding")) [
        | inr other ↦ rw other (refl, refl, refl)
        | inl binding ↦ elim (Bool-cases (truthy reading.entity_ref && truthy reading.role)) [
          | inr empty ↦ rw binding (rw empty (refl, refl, refl))
          | inl full ↦ rw binding (
              rw full (
                accept-SameDecisions drawn
                  (role_candidate_ref proposal.site_id reading.entity_ref reading.role) proposal id
                  reading store))
        ]
      ]

  -- What `decide` does to the three tables.
  pub decide_tables :
      (approve : Bool) (drawn : Drawn) (actor comment decision : String)
      (request : UserDecisionRequest) (proposal : Proposal W) (store : Store W)
      → let after =
          decide_as role_candidate_ref approve drawn actor comment decision request proposal
            store in
        (after.requests
          ≡ put_request request.id (decided_request drawn.now approve request) store.requests)
        × (after.proposals
            ≡ put_proposal proposal.id
                (decided_proposal drawn.now approve proposal)
                store.proposals)
        × ((m : Option Accepted) × (after.decisions
              ≡ decision_row drawn actor comment decision request proposal m ∷ store.decisions))
  unfolding decide_as decided
  decide_tables false drawn actor comment decision request proposal store =
      (refl, refl, (none, refl))
  decide_tables true drawn actor comment decision request proposal store =
      let changed = decided drawn true actor decision request proposal store in
      let approved = decided_proposal drawn.now true proposal in
      let same = materialize-SameDecisions drawn approved request.id changed in
      let made =
        (materialize_approved_role_candidate role_candidate_ref drawn approved request.id
          changed).0 in
      (
        same.0,
        same.1,
        (
          made,
          ap (λ ds. decision_row drawn actor comment decision request proposal made ∷ ds) same.2,
        ),
      )

  -- A decision that is recorded has passed the checks.
  pub record_user_decision-Passes :
      (drawn : Drawn) (request_id decision actor comment : String) (store after : Store W)
      → record_user_decision role_candidate_ref drawn request_id decision actor comment store
        ≡ ok after
      → (p : Passes request_id decision store) × (after
          ≡ decide role_candidate_ref drawn actor comment
              (lower (strip decision))
              p.request
              p.proposal
              store)
  unfolding record_user_decision
  record_user_decision-Passes drawn request_id decision actor comment store after done =
      elim (Option-cases (request_with request_id store.requests)) [
        | inl missing ↦ absurd (cc (rw missing at done))
        | inr (request, asked) ↦
            elim (Option-cases (proposal_with request.proposal_id store.proposals)) [
              | inl missing ↦ absurd (cc (rw (asked, missing) at done))
              | inr (proposal, proposed) ↦ elim (Bool-cases (str_eq request.status "pending")) [
                | inr settled ↦ absurd (cc (rw (asked, proposed, settled) at done))
                | inl pending ↦
                    elim (Bool-cases
                      (one_of (lower (strip decision)) ("approve" ∷ "reject" ∷ []))) [
                        | inr other ↦ absurd (cc (rw (asked, proposed, pending, other) at done))
                        | inl known ↦ (
                          record {
                            request = request;
                            proposal = proposal;
                            asked = asked;
                            proposed = proposed;
                            pending = pending;
                            known = known;
                          },
                          sym (cc (rw (asked, proposed, pending, known) at done)),
                        )
                      ]
              ]
            ]
      ]

  -- A decision that passes the checks is recorded.
  pub record_user_decision_ok :
      (drawn : Drawn) (request_id decision actor comment : String) (store : Store W)
      (p : Passes request_id decision store)
      → record_user_decision role_candidate_ref drawn request_id decision actor comment store
        ≡ ok (
            decide role_candidate_ref drawn actor comment
              (lower (strip decision))
              p.request
              p.proposal
              store)
  unfolding record_user_decision
  record_user_decision_ok drawn request_id decision actor comment store p =
      rw p.asked (rw p.proposed (rw p.pending (rw p.known refl)))

  -- Where the decision, stripped and in lower case, is not approve, a decision that is recorded makes
  -- no candidate, no evidence, no task, no step and no blocker.
  pub record_user_decision_reject :
      (drawn : Drawn) (request_id decision actor comment : String) (store after : Store W)
      → str_eq (lower (strip decision)) "approve" ≡ false
      → record_user_decision role_candidate_ref drawn request_id decision actor comment store
        ≡ ok after
      → (after.entities ≡ store.entities)
        × (after.evidence ≡ store.evidence)
        × (after.tasks ≡ store.tasks)
        × (after.steps ≡ store.steps)
        × (after.blockers ≡ store.blockers)
  unfolding decide decide_as decided
  record_user_decision_reject drawn request_id decision actor comment store after rejected done =
      let (p, e) =
        record_user_decision-Passes drawn request_id decision actor comment store after done in
      let e' = rw rejected at e in
      (
        ap (λ (s : Store W). s.entities) e',
        ap (λ (s : Store W). s.evidence) e',
        ap (λ (s : Store W). s.tasks) e',
        ap (λ (s : Store W). s.steps) e',
        ap (λ (s : Store W). s.blockers) e',
      )

  -- A decision is recorded, and leaves the given tables, exactly when its request is there and pending,
  -- the proposal is there, the decision, stripped and in lower case, is approve or reject, and the
  -- tables are those that `decide` leaves; in all other cases an exception is raised.
  pub record_user_decision_iff :
      (drawn : Drawn) (request_id decision actor comment : String) (store after : Store W)
      → (record_user_decision role_candidate_ref drawn request_id decision actor comment store
          ≡ ok after)
        ↔ ((p : Passes request_id decision store) × (after
              ≡ decide role_candidate_ref drawn actor comment
                  (lower (strip decision))
                  p.request
                  p.proposal
                  store))
  record_user_decision_iff drawn request_id decision actor comment store after = (
    record_user_decision-Passes drawn request_id decision actor comment store after,
    λ h.
        record_user_decision_ok drawn request_id decision actor comment store h.0 ∙ ap ok (sym h.1),
  )
