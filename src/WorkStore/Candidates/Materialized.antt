-- ===== src/WorkStore/Candidates/Materialized.antt =====
-- What the approval of a role candidate leaves behind.
use helios_home.Prelude.{
  strip, ℕ, suc, ◌≡◌, refl, sym, ap, ◌∙◌, String, Bool, true, false, ◌&&◌, ◌||◌, Option, none, some,
  List, [], ◌∷◌, str_eq, str_eq_refl, one_of, truthy, if◌then◌else◌, length, Bool-cases,
  Option-cases, inl, inr, arith,
}
use helios_home.Prelude.Float.{Float}
use helios_home.Prelude.Sort.{sort_by, insert_by}
use helios_home.Prelude.Json.{Repr, Fields, text, get, or_else, as_text}
use helios_home.WorkStore.{AgentTask, Proposal, HomeGraphEntity, Store}
use helios_home.WorkStore.Candidates.{
  Drawn, Reading, Accepted, entity_with, put_entity, put_task, is_open_commissioning, open_tasks,
  first_for, find_open_commissioning_task, with_task, accepted_entity, accept, read_payload,
  materialize_approved_role_candidate, latest_accepted_role_candidate_for_entity, newest_first,
}

module _ {W : Type 0} where
  -- Some task is open for the candidate at the site.
  abbrev pub has_open : ℕ → String → List (AgentTask W) → Bool
  has_open site_id ref [] = false
  has_open site_id ref (t ∷ ts) =
      (is_open_commissioning site_id t && one_of ref t.target_refs) || has_open site_id ref ts

  abbrev has_ref : String → List (AgentTask W) → Bool
  has_ref ref [] = false
  has_ref ref (t ∷ ts) = one_of ref t.target_refs || has_ref ref ts

  abbrev is_there : Option (AgentTask W) → Bool
  is_there none = false
  is_there (some t) = true

  has_ref-insert :
      (ref : String) (le : AgentTask W → AgentTask W → Bool) (t : AgentTask W)
      (ts : List (AgentTask W))
      → has_ref ref (insert_by le t ts) ≡ has_ref ref (t ∷ ts)
  unfolding insert_by
  has_ref-insert ref le t [] = refl
  has_ref-insert ref le t (u ∷ ts) = elim (Bool-cases (le t u)) [
    | inl below ↦ rw below refl
    | inr above ↦ rw above (rw (has_ref-insert ref le t ts) (ground arith))
  ]

  has_ref-sort :
      (ref : String) (le : AgentTask W → AgentTask W → Bool) (ts : List (AgentTask W))
      → has_ref ref (sort_by le ts) ≡ has_ref ref ts
  unfolding sort_by
  has_ref-sort ref le [] = refl
  has_ref-sort ref le (t ∷ ts) =
      has_ref-insert ref le t (sort_by le ts)
      ∙ ap (λ b. one_of ref t.target_refs || b) (has_ref-sort ref le ts)

  has_ref-open_tasks :
      (site_id : ℕ) (ref : String) (ts : List (AgentTask W))
      → has_ref ref (open_tasks site_id ts) ≡ has_open site_id ref ts
  unfolding open_tasks
  has_ref-open_tasks site_id ref [] = refl
  has_ref-open_tasks site_id ref (t ∷ ts) = elim (Bool-cases (is_open_commissioning site_id t)) [
    | inl open_one ↦
        rw open_one (ap (λ b. one_of ref t.target_refs || b) (has_ref-open_tasks site_id ref ts))
    | inr other ↦ rw other (has_ref-open_tasks site_id ref ts)
  ]

  first_for-there :
      (ref : String) (ts : List (AgentTask W)) → is_there (first_for ref ts) ≡ has_ref ref ts
  unfolding first_for
  first_for-there ref [] = refl
  first_for-there ref (t ∷ ts) = elim (Bool-cases (one_of ref t.target_refs)) [
    | inl this ↦ rw this refl
    | inr other ↦ rw other (first_for-there ref ts)
  ]

  find-there :
      (site_id : ℕ) (ref : String) (ts : List (AgentTask W))
      → is_there (find_open_commissioning_task site_id ref ts) ≡ has_open site_id ref ts
  unfolding find_open_commissioning_task
  find-there site_id ref ts =
      first_for-there ref (newest_first (open_tasks site_id ts))
      ∙ has_ref-sort ref _ (open_tasks site_id ts)
      ∙ has_ref-open_tasks site_id ref ts

  length-put_task :
      (id : String) (new : AgentTask W) (ts : List (AgentTask W))
      → length (put_task id new ts) ≡ length ts
  unfolding put_task
  length-put_task id new [] = refl
  length-put_task id new (t ∷ ts) = elim (Bool-cases (str_eq t.id id)) [
    | inl this ↦ rw this refl
    | inr other ↦ rw other (ap suc (length-put_task id new ts))
  ]

  entity_with-put :
      (id : String) (new : HomeGraphEntity W) (es : List (HomeGraphEntity W))
      → str_eq new.id id ≡ true
      → entity_with id (put_entity id new es) ≡ some new
  unfolding entity_with put_entity
  entity_with-put id new [] own = rw own refl
  entity_with-put id new (e ∷ es) own = elim (Bool-cases (str_eq e.id id)) [
    | inl this ↦ rw this (rw own refl)
    | inr other ↦ rw other (rw other (entity_with-put id new es own))
  ]

  -- How many tasks there are once a candidate is accepted.
  abbrev pub tasks_after : ℕ → String → Store W → ℕ
  tasks_after site_id ref store =
      if has_open site_id ref store.tasks then length store.tasks else suc (length store.tasks)

  accept_tasks :
      (drawn : Drawn) (ref : String) (proposal : Proposal W) (id : String) (reading : Reading)
      (store : Store W)
      → length (accept drawn ref proposal id reading store).1.tasks
        ≡ tasks_after proposal.site_id ref store
  unfolding accept with_task
  accept_tasks drawn ref proposal id reading store =
      let there = find-there proposal.site_id ref store.tasks in
      elim (Option-cases (find_open_commissioning_task proposal.site_id ref store.tasks)) [
        | inl new ↦
            let no_open : has_open proposal.site_id ref store.tasks ≡ false =
              sym there ∙ ap is_there new in
            rw new (rw no_open refl)
        | inr (task, old) ↦
            let an_open : has_open proposal.site_id ref store.tasks ≡ true =
              sym there ∙ ap is_there old in
            rw old (rw an_open (length-put_task task.id _ store.tasks))
      ]

  accept_entity :
      (drawn : Drawn) (ref : String) (proposal : Proposal W) (id : String) (reading : Reading)
      (store : Store W)
      → entity_with ref (accept drawn ref proposal id reading store).1.entities
        ≡ some (accepted_entity drawn ref proposal id reading (entity_with ref store.entities))
  unfolding accept accepted_entity
  accept_entity drawn ref proposal id reading store =
      entity_with-put ref
        (accepted_entity drawn ref proposal id reading (entity_with ref store.entities))
        store.entities (str_eq_refl ref)

module _ {W : Type 0} ⦃fl : Float W⦄ ⦃r : Repr W⦄
    (role_candidate_ref : ℕ → String → String → String) where
  -- The text that the payload of a proposal states under the key, or else the other text.
  abbrev pub stated : Fields W → String → String → String
  stated payload key other = strip (as_text (or_else (get payload key) (text other)))

  -- What the proposal states: the entity, its role, and the label, which is the entity's where none is
  -- given.
  abbrev pub entity_of : Proposal W → String
  entity_of proposal = stated proposal.payload "entity_ref" ""

  abbrev pub role_of : Proposal W → String
  role_of proposal = stated proposal.payload "role" ""

  abbrev pub label_of : Proposal W → String
  label_of proposal = stated proposal.payload "label" (entity_of proposal)

  -- The candidate is found for the entity and the role of the proposal: accepted, with the role, the
  -- label and the identifier of the proposal. One task more, unless one was open.
  abbrev pub IsFound : Proposal W → Store W → Accepted → Store W → Type 0
  IsFound proposal store a after =
      let ref = role_candidate_ref proposal.site_id (entity_of proposal) (role_of proposal) in
      (str_eq proposal.proposal_type "role_binding" ≡ true)
      × ((truthy (entity_of proposal) && truthy (role_of proposal)) ≡ true)
      × (a.role_candidate_ref ≡ ref)
      × ((row : HomeGraphEntity W) × (latest_accepted_role_candidate_for_entity role_candidate_ref
              proposal.site_id (entity_of proposal) (role_of proposal) after
            ≡ some row)
          × (row.status ≡ "accepted")
          × (row.semantic_type ≡ role_of proposal)
          × (row.display_name ≡ label_of proposal)
          × (row.source_id ≡ proposal.id))
      × (length after.tasks ≡ tasks_after proposal.site_id ref store)

  accept-IsFound :
      (drawn : Drawn) (proposal : Proposal W) (request_id : String) (store : Store W)
      → str_eq proposal.proposal_type "role_binding" ≡ true
      → (truthy (entity_of proposal) && truthy (role_of proposal)) ≡ true
      → let ref = role_candidate_ref proposal.site_id (entity_of proposal) (role_of proposal) in
        let done = accept drawn ref proposal request_id (read_payload proposal.payload) store in
        IsFound proposal store done.0 done.1
  unfolding accept latest_accepted_role_candidate_for_entity accepted_entity read_payload
  accept-IsFound drawn proposal request_id store binding full =
      let reading = read_payload proposal.payload in
      let ref = role_candidate_ref proposal.site_id reading.entity_ref reading.role in
      let row =
        accepted_entity drawn ref proposal request_id reading (entity_with ref store.entities) in
      (
        binding,
        full,
        refl,
        (
          row,
          rw (accept_entity drawn ref proposal request_id reading store) refl,
          refl,
          refl,
          refl,
          refl,
        ),
        accept_tasks drawn ref proposal request_id reading store,
      )

  abbrev pub IsMaterialized : Proposal W → Store W → Option Accepted × Store W → Type 0
  IsMaterialized proposal store (some a, after) = IsFound proposal store a after
  IsMaterialized proposal store (none, after) =
      ((str_eq proposal.proposal_type "role_binding"
          && (truthy (entity_of proposal) && truthy (role_of proposal)))
        ≡ false)
      × (after ≡ store)

  -- A proposal is materialized exactly when it is a role binding whose payload states an entity and a
  -- role; else the tables stay as they are. The candidate that is then found for this entity and this
  -- role is accepted, and carries the role and the label that the payload states (the entity, where it
  -- states no label) and the proposal's identifier; and a task is added exactly when none is open for
  -- the candidate at the site.
  pub materialize_approved_role_candidate-IsMaterialized :
      (drawn : Drawn) (proposal : Proposal W) (request_id : String) (store : Store W)
      → IsMaterialized proposal store
          (materialize_approved_role_candidate role_candidate_ref drawn proposal request_id store)
  unfolding materialize_approved_role_candidate read_payload
  materialize_approved_role_candidate-IsMaterialized drawn proposal request_id store =
      elim (Bool-cases (str_eq proposal.proposal_type "role_binding")) [
        | inr other ↦ rw other (rw other refl, refl)
        | inl binding ↦
            elim (Bool-cases (truthy (entity_of proposal) && truthy (role_of proposal))) [
              | inr empty ↦ rw (binding, empty) (rw (binding, empty) refl, refl)
              | inl full ↦
                  rw (binding, full) (accept-IsFound drawn proposal request_id store binding full)
            ]
      ]
