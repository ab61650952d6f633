-- ===== src/Hems/LoadControl/Deliveries/Creation.antt =====
-- Which deliveries of a distribution are pending.
use helios_home.Prelude.{
  ◌+◌, ℕ, ◌≡◌, refl, String, Bool, true, false, not, ◌&&◌, ◌||◌, List, [], ◌∷◌, str_eq,
  if◌then◌else◌, pos, leb_ℤ, Bool-cases, inl, inr, truthy, strip, lower,
}
use helios_home.Hems.LoadControl.{Delivery, Limit}
use helios_home.Hems.LoadControl.Grid.{Participant}
use helios_home.Hems.LoadControl.Deliveries.{
  created, create_load_control_deliveries, initial_status,
}

pending-lem :
    (zero_allocation named peer path : Bool)
    → let first : String × String =
        if zero_allocation
        then ("skipped_zero_allocation", "No power was allocated to this participant.")
        else if named && peer
        then ("pending", "Allocated and waiting for EEBUS delivery.")
        else if named && path
        then ("pending", "Allocated and waiting for native HEMS dispatch.")
        else (
          "not_deliverable",
          "Allocated locally, but no validated control endpoint is configured for this participant.",
        ) in
      str_eq first.0 "pending" ≡ (not zero_allocation && (named && (peer || path)))
pending-lem true named peer path = refl
pending-lem false true true path = refl
pending-lem false true false true = refl
pending-lem false true false false = refl
pending-lem false false peer path = refl

module _ {W : Type 0} where
  abbrev pub is_deliverable : Delivery W → Bool
  is_deliverable d =
      not (leb_ℤ d.allocated_limit_watts (pos 0))
      && (truthy d.target_endpoint_ref && (truthy d.target_peer_ski || truthy d.control_path))

  -- Each delivery is for the limit, and is pending exactly when there is something to deliver and
  -- somewhere to deliver it.
  abbrev pub AreFor : Limit W → List (Delivery W) → Type 0
  AreFor limit [] = Unit
  AreFor limit (d ∷ ds) =
      ((d.constraint_id ≡ limit.id)
        × (d.site_id ≡ limit.site_id)
        × (truthy d.target_device_id ≡ true)
        × (str_eq d.status "pending" ≡ is_deliverable d))
      × AreFor limit ds

  created-pending :
      (fresh_id : String) (limit : Limit W) (p : Participant W)
      → str_eq (created fresh_id limit p).status "pending"
        ≡ is_deliverable (created fresh_id limit p)
  unfolding created initial_status
  created-pending fresh_id limit p =
      pending-lem (leb_ℤ p.allocated_limit_watts (pos 0)) (truthy p.target_endpoint_ref)
        (truthy (lower (strip p.target_peer_ski))) (truthy p.control_path)

  -- Every delivery that is created is for the limit and its site and names a device; it is pending exactly when
  -- it has a positive allocation, an endpoint, and a peer or a control path.
  pub create_load_control_deliveries-AreFor :
      (fresh : ℕ → String) (k : ℕ) (limit : Limit W) (participants : List (Participant W))
      → AreFor limit (create_load_control_deliveries fresh k limit participants)
  unfolding create_load_control_deliveries created
  create_load_control_deliveries-AreFor fresh k limit [] = tt
  create_load_control_deliveries-AreFor fresh k limit (p ∷ ps) =
      let ih = create_load_control_deliveries-AreFor fresh k limit ps in
      let later = create_load_control_deliveries-AreFor fresh (1 + k) limit ps in
      let own = created-pending (fresh k) limit p in
      elim (Bool-cases (truthy p.device_id)) [
        | inl named ↦ rw named ((refl, refl, named, own), later)
        | inr unnamed ↦ rw unnamed ih
      ]
