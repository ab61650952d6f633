-- ===== src/WorkStore/Decisions/Once.antt =====
-- A request is decided once: the invariant of the tables of requests and decisions.
pub mod Reached
use helios_home.Prelude.{
  ℕ, suc, ◌+◌, ◌≡◌, refl, sym, ap, ◌∙◌, String, Bool, true, false, not, ◌&&◌, ◌||◌, Option, none,
  some, List, [], ◌∷◌, str_eq, str_eq_refl, str_eq_comm, eq_iff, if◌then◌else◌, Bool-cases, inl,
  inr, arith, ok, err, Result,
}
use helios_home.WorkStore.{UserDecisionRequest, UserDecision, Store}
use helios_home.WorkStore.Decisions.{request_with, put_request}

abbrev pub has_request : String → List UserDecisionRequest → Bool
has_request id [] = false
has_request id (r ∷ rs) = str_eq r.id id || has_request id rs

-- The primary keys.
abbrev pub AreDistinct : List UserDecisionRequest → Type 0
AreDistinct [] = Unit
AreDistinct (r ∷ rs) = (has_request r.id rs ≡ false) × AreDistinct rs

module _ {W : Type 0} where
  -- How many decisions the request has.
  abbrev pub count : String → List (UserDecision W) → ℕ
  count id [] = 0
  count id (d ∷ ds) = (if str_eq d.request_id id then 1 else 0) + count id ds

  -- No decision while a request is pending, and one afterwards.
  abbrev pub AreSettled : List (UserDecision W) → List UserDecisionRequest → Type 0
  AreSettled ds [] = Unit
  AreSettled ds (r ∷ rs) =
      (count r.id ds ≡ (if str_eq r.status "pending" then 0 else 1)) × AreSettled ds rs

  -- Every decision belongs to a request.
  abbrev pub AreKnown : List UserDecisionRequest → List (UserDecision W) → Type 0
  AreKnown rs [] = Unit
  AreKnown rs (d ∷ ds) = (has_request d.request_id rs ≡ true) × AreKnown rs ds

  pub record IsOnce (store : Store W) : Type 0 where
    pub distinct : AreDistinct store.requests
    pub settled : AreSettled store.decisions store.requests
    pub known : AreKnown store.requests store.decisions

  -- A decision of a request that is not among them changes nothing for the others.
  pub settled_apart :
      (d : UserDecision W) (ds : List (UserDecision W)) (rs : List UserDecisionRequest)
      → has_request d.request_id rs ≡ false
      → AreSettled ds rs
      → AreSettled (d ∷ ds) rs
  settled_apart d ds [] apart settled = tt
  settled_apart d ds (r ∷ rs) apart settled =
      let parts : (str_eq r.id d.request_id ≡ false) × (has_request d.request_id rs ≡ false) =
        ground arith in
      let other : str_eq d.request_id r.id ≡ false = str_eq_comm d.request_id r.id ∙ parts.0 in
      (rw other (omega (arith, settled.0)), settled_apart d ds rs parts.1 settled.1)

  -- A request that no decision knows has none.
  pub count_unknown :
      (id : String) (rs : List UserDecisionRequest) (ds : List (UserDecision W))
      → has_request id rs ≡ false
      → AreKnown rs ds
      → count id ds ≡ 0
  count_unknown id rs [] new known = refl
  count_unknown id rs (d ∷ ds) new known = elim (Bool-cases (str_eq d.request_id id)) [
    | inl same ↦
        let e : d.request_id ≡ id = (eq_iff d.request_id id).0 same in absurd (cc (rw e at known.0))
    | inr other ↦ rw other (omega (arith, count_unknown id rs ds new known.1))
  ]

pub request_with-id :
    (id : String) (rs : List UserDecisionRequest) (r : UserDecisionRequest)
    → request_with id rs ≡ some r
    → (r.id ≡ id) × (has_request id rs ≡ true)
unfolding request_with
request_with-id id [] r found = absurd (cc found)
request_with-id id (q ∷ rs) r found = elim (Bool-cases (str_eq q.id id)) [
  | inl same ↦
      let e : q ≡ r = cc (rw same at found) in
      (ap (λ (x : UserDecisionRequest). x.id) (sym e) ∙ (eq_iff q.id id).0 same, rw same refl)
  | inr other ↦
      let below = request_with-id id rs r (rw other at found) in (below.0, rw other below.1)
]

-- Changing a row keeps the identifiers.
pub has_request-put :
    (k id : String) (new : UserDecisionRequest) (rs : List UserDecisionRequest)
    → new.id ≡ id
    → has_request k (put_request id new rs) ≡ has_request k rs
unfolding put_request
has_request-put k id new [] same = refl
has_request-put k id new (r ∷ rs) same = elim (Bool-cases (str_eq r.id id)) [
  | inl this ↦
      let e : new.id ≡ r.id = same ∙ sym ((eq_iff r.id id).0 this) in
      rw this (ap (λ x. str_eq x k || has_request k rs) e)
  | inr other ↦ rw other (rw (has_request-put k id new rs same) refl)
]

pub AreDistinct-put :
    (id : String) (new : UserDecisionRequest) (rs : List UserDecisionRequest)
    → new.id ≡ id
    → AreDistinct rs
    → AreDistinct (put_request id new rs)
unfolding put_request
AreDistinct-put id new [] same distinct = tt
AreDistinct-put id new (r ∷ rs) same distinct = elim (Bool-cases (str_eq r.id id)) [
  | inl this ↦
      let e : r.id ≡ new.id = (eq_iff r.id id).0 this ∙ sym same in
      rw this (ap (λ x. has_request x rs) (sym e) ∙ distinct.0, distinct.1)
  | inr other ↦
      rw other (
        has_request-put r.id id new rs same ∙ distinct.0,
        AreDistinct-put id new rs same distinct.1,
      )
]

module _ {W : Type 0} where
  pub AreKnown-put :
      (id : String) (new : UserDecisionRequest) (rs : List UserDecisionRequest)
      (ds : List (UserDecision W))
      → new.id ≡ id
      → AreKnown rs ds
      → AreKnown (put_request id new rs) ds
  AreKnown-put id new rs [] same known = tt
  AreKnown-put id new rs (d ∷ ds) same known = (
    has_request-put d.request_id id new rs same ∙ known.0,
    AreKnown-put id new rs ds same known.1,
  )

  pub AreKnown-more :
      (r : UserDecisionRequest) (rs : List UserDecisionRequest) (ds : List (UserDecision W))
      → AreKnown rs ds
      → AreKnown (r ∷ rs) ds
  AreKnown-more r rs [] known = tt
  AreKnown-more r rs (d ∷ ds) known = (rw known.0 (ground arith), AreKnown-more r rs ds known.1)

  -- Deciding a pending request settles it, and leaves the others settled.
  pub AreSettled-put :
      (d : UserDecision W) (ds : List (UserDecision W)) (id : String)
      (old new : UserDecisionRequest) (rs : List UserDecisionRequest)
      → d.request_id ≡ id
      → new.id ≡ id
      → str_eq old.status "pending" ≡ true
      → str_eq new.status "pending" ≡ false
      → request_with id rs ≡ some old
      → AreDistinct rs
      → AreSettled ds rs
      → AreSettled (d ∷ ds) (put_request id new rs)
  unfolding put_request request_with
  AreSettled-put d ds id old new [] of same was now found distinct settled = tt
  AreSettled-put d ds id old new (r ∷ rs) of same was now found distinct settled =
      elim (Bool-cases (str_eq r.id id)) [
        | inl this ↦
            let r_id : r.id ≡ id = (eq_iff r.id id).0 this in
            let r_old : r ≡ old = cc (rw this at found) in
            let pending : str_eq r.status "pending" ≡ true =
              ap (λ (x : UserDecisionRequest). str_eq x.status "pending") r_old ∙ was in
            let none_yet : count id ds ≡ 0 =
              ap (λ k. count k ds) (sym r_id) ∙ rw pending at settled.0 in
            let none_new : count new.id ds ≡ 0 = ap (λ k. count k ds) same ∙ none_yet in
            let own : str_eq d.request_id new.id ≡ true =
              (eq_iff d.request_id new.id).1 (of ∙ sym same) in
            let apart : has_request d.request_id rs ≡ false =
              ap (λ k. has_request k rs) (of ∙ sym r_id) ∙ distinct.0 in
            rw this
              (rw own (rw now (omega (arith, none_new))), settled_apart d ds rs apart settled.1)
        | inr other ↦
            let not_own : str_eq d.request_id r.id ≡ false =
              ap (λ k. str_eq k r.id) of ∙ str_eq_comm id r.id ∙ other in
            rw other (
              rw not_own (omega (arith, settled.0)),
              AreSettled-put d ds id old new rs of same was now (rw other at found) distinct.1
                  settled.1,
            )
      ]
