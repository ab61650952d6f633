-- ===== src/Hems/LoadControl/Deliveries/Progress.antt =====
-- What an update of a delivery keeps.
use helios_home.Prelude.{
  truthy, if◌then◌else◌, ◌++◌, ◌+◌, ℕ, ◌-◌, ◌≤◌, ◌≡◌, refl, String, Bool, true, false, not, ◌||◌,
  Option, none, some, List, [], ◌∷◌, str_eq, length, length-drop, arith, Bool-cases, inl, inr,
}
use helios_home.Prelude.Json.{Fields}
use helios_home.Hems.LoadControl.{Delivery, DeliveryUpdate, Limit}
use helios_home.Hems.LoadControl.Grid.{Participant}
use helios_home.Hems.LoadControl.Deliveries.{
  last_twenty, updated, update_load_control_delivery_status, created,
  create_load_control_deliveries, initial_status,
}

abbrev pub is_set {ℓ} : {A : Type ℓ} → Option A → Bool
is_set none = false
is_set (some _) = true

abbrev pub implies : Bool → Bool → Bool
implies a b = not a || b

if_ind : {A : Type 0} (P : A → Type 0) (b : Bool) (x y : A) → P x → P y → P (if b then x else y)
if_ind P true x y p q = p
if_ind P false x y p q = q

module _ {W : Type 0} where
  -- A delivery that is acknowledged was sent, one that is read back was acknowledged, the status
  -- has its time, and at most 20 updates are kept.
  pub record IsConsistent (d : Delivery W) : Type 0 where
    pub acknowledged_sent : implies (is_set d.acknowledged_at) (is_set d.sent_at) ≡ true
    pub readback_acknowledged : implies (is_set d.readback_at) (is_set d.acknowledged_at) ≡ true
    pub status_sent : implies (str_eq d.status "sent") (is_set d.sent_at) ≡ true
    pub status_acknowledged :
        implies (str_eq d.status "acknowledged") (is_set d.acknowledged_at) ≡ true
    pub status_readback :
        implies (str_eq d.status "readback_confirmed") (is_set d.readback_at) ≡ true
    pub few_updates : length d.updates ≤ 20

  abbrev pub AreConsistent : List (Delivery W) → Type 0
  AreConsistent [] = Unit
  AreConsistent (d ∷ ds) = IsConsistent d × AreConsistent ds

  length-last_twenty : (us : List (DeliveryUpdate W)) → length (last_twenty us) ≤ 20
  unfolding last_twenty
  length-last_twenty us = rw (length-drop (length us - 20) us) (omega arith)

  pub updated-IsConsistent :
      (status detail error : String) (raw_update : Fields W) (now : ℕ) (d : Delivery W)
      → IsConsistent d
      → IsConsistent (updated status detail error raw_update now d)
  unfolding updated
  updated-IsConsistent status detail error raw_update now d h = record {
    acknowledged_sent = ground (arith, h.acknowledged_sent);
    readback_acknowledged = ground (arith, h.readback_acknowledged);
    status_sent = ground arith;
    status_acknowledged = ground arith;
    status_readback = ground arith;
    few_updates = length-last_twenty (
        d.updates
        ++ record { status = status; detail = detail; error = error; raw = raw_update; at = now }
          ∷ []);
  }

  initial_status_ind :
      (P : String × String → Type 0) (p : Participant W)
      → P ("skipped_zero_allocation", "No power was allocated to this participant.")
      → P ("pending", "Allocated and waiting for EEBUS delivery.")
      → P ("pending", "Allocated and waiting for native HEMS dispatch.")
      → P (
        "not_deliverable",
        "Allocated locally, but no validated control endpoint is configured for this participant.",
      )
      → P (initial_status p)
  unfolding initial_status
  initial_status_ind P p a b c d = if_ind P _ _ _ a (if_ind P _ _ _ b (if_ind P _ _ _ c d))

  -- A delivery that was just created is consistent.
  pub created-IsConsistent :
      (fresh_id : String) (limit : Limit W) (p : Participant W)
      → IsConsistent (created fresh_id limit p)
  unfolding created initial_status
  created-IsConsistent fresh_id limit p = record {
    acknowledged_sent = refl;
    readback_acknowledged = refl;
    status_sent =
        initial_status_ind (λ s. implies (str_eq s.0 "sent") false ≡ true) p refl refl refl refl;
    status_acknowledged =
        initial_status_ind (λ s. implies (str_eq s.0 "acknowledged") false ≡ true) p refl refl refl
          refl;
    status_readback =
        initial_status_ind (λ s. implies (str_eq s.0 "readback_confirmed") false ≡ true) p refl refl
          refl refl;
    few_updates = omega arith;
  }

  -- An update of a delivery's status, with whatever status and texts, keeps every row consistent: what
  -- is acknowledged was sent, what is read back was acknowledged, each status has its time, and at
  -- most 20 updates are kept.
  pub update_load_control_delivery_status-AreConsistent :
      (delivery_id status detail error : String) (raw_update : Fields W) (now : ℕ)
      (rows : List (Delivery W))
      → AreConsistent rows
      → AreConsistent
          (update_load_control_delivery_status delivery_id status detail error raw_update now
            rows).1
  unfolding update_load_control_delivery_status
  update_load_control_delivery_status-AreConsistent id status detail error raw_update now [] h = tt
  update_load_control_delivery_status-AreConsistent id status detail error raw_update now (d ∷ ds)
        h =
      let rest =
        update_load_control_delivery_status-AreConsistent id status detail error raw_update now ds
          h.1 in
      elim (Bool-cases (str_eq d.id id)) [
        | inl this ↦ rw this (updated-IsConsistent status detail error raw_update now d h.0, h.1)
        | inr other ↦ rw other (h.0, rest)
      ]

  -- The deliveries that are created for a limit are consistent.
  pub create_load_control_deliveries-AreConsistent :
      (fresh : ℕ → String) (k : ℕ) (limit : Limit W) (ps : List (Participant W))
      → AreConsistent (create_load_control_deliveries fresh k limit ps)
  unfolding create_load_control_deliveries
  create_load_control_deliveries-AreConsistent fresh k limit [] = tt
  create_load_control_deliveries-AreConsistent fresh k limit (p ∷ ps) =
      elim (Bool-cases (truthy p.device_id)) [
        | inl named ↦ rw named (
          created-IsConsistent (fresh k) limit p,
          create_load_control_deliveries-AreConsistent fresh (1 + k) limit ps,
        )
        | inr unnamed ↦ rw unnamed (create_load_control_deliveries-AreConsistent fresh k limit ps)
      ]
