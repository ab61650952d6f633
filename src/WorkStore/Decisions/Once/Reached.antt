-- ===== src/WorkStore/Decisions/Once/Reached.antt =====
-- The steps that ask for decisions and record them, and what holds in every store that they reach.
use helios_home.Prelude.{
  ℕ, ◌≡◌, refl, sym, ap, ◌∙◌, String, Bool, true, false, some, List, [], ◌∷◌, str_eq, eq_iff,
  Bool-cases, inl, inr, ok, err, subst, lower, strip,
}
use helios_home.Prelude.Float.{Float}
use helios_home.Prelude.Json.{Repr}
use helios_home.WorkStore.{Proposal, UserDecisionRequest, Store}
use helios_home.WorkStore.Proposals.{Draft, create_proposal_with_decision_request, requested}
use helios_home.WorkStore.Candidates.{Drawn}
use helios_home.WorkStore.Decisions.{
  Failure, request_with, put_request, proposal_with, put_proposal, decided_request,
  decided_proposal, decision_row, decide, decide_as, record_user_decision,
}
use helios_home.WorkStore.Decisions.Outcome.{decide_tables, record_user_decision-Passes, Passes}
use helios_home.WorkStore.Decisions.Once.{
  has_request, AreDistinct, AreSettled, AreKnown, IsOnce, count_unknown, request_with-id,
  has_request-put, AreDistinct-put, AreKnown-put, AreKnown-more, AreSettled-put,
}

request_with-put :
    (id : String) (old new : UserDecisionRequest) (rs : List UserDecisionRequest)
    → request_with id rs ≡ some old
    → new.id ≡ id
    → request_with id (put_request id new rs) ≡ some new
unfolding request_with put_request
request_with-put id old new [] found same = absurd (cc found)
request_with-put id old new (r ∷ rs) found same = elim (Bool-cases (str_eq r.id id)) [
  | inl this ↦
      let own : str_eq new.id id ≡ true = (eq_iff new.id id).1 same in rw this (rw own refl)
  | inr other ↦ rw other (rw other (request_with-put id old new rs (rw other at found) same))
]

module _ {W : Type 0} where
  proposal_with-id :
      (k : String) (ps : List (Proposal W)) (p : Proposal W)
      → proposal_with k ps ≡ some p
      → p.id ≡ k
  unfolding proposal_with
  proposal_with-id k [] p found = absurd (cc found)
  proposal_with-id k (q ∷ ps) p found = elim (Bool-cases (str_eq q.id k)) [
    | inl this ↦
        let e : q ≡ p = cc (rw this at found) in
        ap (λ (x : Proposal W). x.id) (sym e) ∙ (eq_iff q.id k).0 this
    | inr other ↦ proposal_with-id k ps p (rw other at found)
  ]

  proposal_with-put :
      (k : String) (old new : Proposal W) (ps : List (Proposal W))
      → proposal_with k ps ≡ some old
      → new.id ≡ k
      → proposal_with k (put_proposal k new ps) ≡ some new
  unfolding proposal_with put_proposal
  proposal_with-put k old new [] found same = absurd (cc found)
  proposal_with-put k old new (p ∷ ps) found same = elim (Bool-cases (str_eq p.id k)) [
    | inl this ↦
        let own : str_eq new.id k ≡ true = (eq_iff new.id k).1 same in rw this (rw own refl)
    | inr other ↦ rw other (rw other (proposal_with-put k old new ps (rw other at found) same))
  ]

  -- A new question leaves every request decided at most once.
  create-IsOnce :
      (proposal_id decision_id : String) (now : ℕ) (draft : Draft W) (store : Store W)
      → has_request decision_id store.requests ≡ false
      → IsOnce store
      → IsOnce (create_proposal_with_decision_request proposal_id decision_id now draft store)
  unfolding create_proposal_with_decision_request requested
  create-IsOnce proposal_id decision_id now draft store new h = record {
    distinct = (new, h.distinct);
    settled = (count_unknown decision_id store.requests store.decisions new h.known, h.settled);
    known =
        AreKnown-more (requested decision_id proposal_id now draft) store.requests store.decisions
          h.known;
  }

abbrev none_stored : {W : Type 0} → Store W
none_stored = record {
  tasks = [];
  steps = [];
  blockers = [];
  proposals = [];
  requests = [];
  decisions = [];
  entities = [];
  evidence = [];
  audit = [];
}

not_pending :
    (approve : Bool) (now : ℕ) (r : UserDecisionRequest)
    → str_eq (decided_request now approve r).status "pending" ≡ false
not_pending true now r = refl
not_pending false now r = refl

module _ {W : Type 0} ⦃fl : Float W⦄ ⦃r : Repr W⦄
    (role_candidate_ref : ℕ → String → String → String) where
  decide-IsOnce :
      (approve : Bool) (drawn : Drawn) (request_id decision actor comment : String)
      (store : Store W) (p : Passes request_id decision store) (after : Store W)
      → after
        ≡ decide_as role_candidate_ref approve drawn actor comment
            (lower (strip decision))
            p.request
            p.proposal
            store
      → IsOnce store
      → IsOnce after
  decide-IsOnce approve drawn request_id decision actor comment store p after e h =
      let d = lower (strip decision) in
      let tables =
        decide_tables role_candidate_ref approve drawn actor comment d p.request p.proposal store in
      let new = decided_request drawn.now approve p.request in
      let found = request_with-id request_id store.requests p.request p.asked in
      let row = decision_row drawn actor comment d p.request p.proposal tables.2.0 in
      let requests_eq : after.requests ≡ put_request request_id new store.requests =
        ap (λ (s : Store W). s.requests) e
        ∙ tables.0
        ∙ ap (λ k. put_request k new store.requests) found.0 in
      let decisions_eq : after.decisions ≡ row ∷ store.decisions =
        ap (λ (s : Store W). s.decisions) e ∙ tables.2.1 in
      record {
        distinct =
            subst AreDistinct (sym requests_eq)
              (AreDistinct-put request_id new store.requests found.0 h.distinct);
        settled =
            subst (λ rs. AreSettled after.decisions rs) (sym requests_eq)
              (subst (λ ds. AreSettled ds (put_request request_id new store.requests))
                (sym decisions_eq)
                (AreSettled-put row store.decisions request_id p.request new store.requests found.0
                  found.0 p.pending (not_pending approve drawn.now p.request) p.asked h.distinct
                  h.settled));
        known =
            subst (λ rs. AreKnown rs after.decisions) (sym requests_eq)
              (subst (AreKnown (put_request request_id new store.requests)) (sym decisions_eq) (
                has_request-put p.request.id request_id new store.requests found.0
                    ∙ ap (λ k. has_request k store.requests) found.0
                    ∙ found.1,
                AreKnown-put request_id new store.requests store.decisions found.0 h.known,
              ));
      }

  record_user_decision-IsOnce :
      (drawn : Drawn) (request_id decision actor comment : String) (store after : Store W)
      → record_user_decision role_candidate_ref drawn request_id decision actor comment store
        ≡ ok after
      → IsOnce store
      → IsOnce after
  unfolding decide
  record_user_decision-IsOnce drawn request_id decision actor comment store after done h =
      let (p, e) =
        record_user_decision-Passes role_candidate_ref drawn request_id decision actor comment store
          after done in
      decide-IsOnce (str_eq (lower (strip decision)) "approve") drawn request_id decision actor
        comment store p after e h

  -- What happens to the tables: a question with a new identifier, or a decision that is recorded.
  pub data Step : Store W → Store W → Type 0 where
    ask :
        (proposal_id decision_id : String) (now : ℕ) (draft : Draft W) (store : Store W)
        → has_request decision_id store.requests ≡ false
        → Step store (create_proposal_with_decision_request proposal_id decision_id now draft store)
    answer :
        (drawn : Drawn) (request_id decision actor comment : String) {store after : Store W}
        → record_user_decision role_candidate_ref drawn request_id decision actor comment store
          ≡ ok after
        → Step store after

  pub data Reach (s : Store W) : Store W → Type 0 where
    here : Reach s s
    next : {t u : Store W} → Reach s t → Step t u → Reach s u

  Step-IsOnce : {s t : Store W} → Step s t → IsOnce s → IsOnce t
  Step-IsOnce (ask proposal_id decision_id now draft store new) h =
      create-IsOnce proposal_id decision_id now draft store new h
  Step-IsOnce (answer drawn request_id decision actor comment {store} {after} done) h =
      record_user_decision-IsOnce drawn request_id decision actor comment store after done h

  -- However questions are asked and answered, starting from tables in which it holds: no two requests
  -- share an identifier, a pending request has no decision, every other request has exactly one, and
  -- every decision belongs to a request.
  pub Reach-IsOnce : (s t : Store W) → Reach s t → IsOnce s → IsOnce t
  Reach-IsOnce s t here h = h
  Reach-IsOnce s t (next {t = u} reached step) h = Step-IsOnce step (Reach-IsOnce s u reached h)

  -- After a decision, every further decision about the same request raises ValueError, whoever makes
  -- it and whatever it is.
  pub record_user_decision_twice :
      (drawn again : Drawn) (request_id decision actor comment decision' actor' comment' : String)
      (store after : Store W)
      → record_user_decision role_candidate_ref drawn request_id decision actor comment store
        ≡ ok after
      → record_user_decision role_candidate_ref again request_id decision' actor' comment' after
        ≡ err Failure.value_error
  unfolding record_user_decision decide
  record_user_decision_twice drawn again request_id decision actor comment decision' actor' comment'
        store after done =
      let (p, e) =
        record_user_decision-Passes role_candidate_ref drawn request_id decision actor comment store
          after done in
      let d = lower (strip decision) in
      let approve = str_eq d "approve" in
      let tables =
        decide_tables role_candidate_ref approve drawn actor comment d p.request p.proposal store in
      let found = request_with-id request_id store.requests p.request p.asked in
      let new = decided_request drawn.now approve p.request in
      let k = p.request.proposal_id in
      let its = proposal_with-id k store.proposals p.proposal p.proposed in
      let changed = decided_proposal drawn.now approve p.proposal in
      let asked : request_with request_id after.requests ≡ some new =
        ap (λ (s : Store W). request_with request_id s.requests) e
        ∙ ap (request_with request_id) tables.0
        ∙ ap (λ j. request_with request_id (put_request j new store.requests)) found.0
        ∙ request_with-put request_id p.request new store.requests p.asked found.0 in
      let proposal : proposal_with k after.proposals ≡ some changed =
        ap (λ (s : Store W). proposal_with k s.proposals) e
        ∙ ap (proposal_with k) tables.1
        ∙ ap (λ j. proposal_with k (put_proposal j changed store.proposals)) its
        ∙ proposal_with-put k p.proposal changed store.proposals p.proposed its in
      rw asked (rw proposal (rw (not_pending approve drawn.now p.request) refl))
