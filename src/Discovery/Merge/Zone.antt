-- ===== src/Discovery/Merge/Zone.antt =====
-- The recovery zone of merged candidates.
use helios_home.Prelude.{
  ℕ, ◌≤◌, ◌≡◌, refl, String, Bool, true, false, List, [], ◌∷◌, ltb, truthy, if◌then◌else◌, arith,
}
use helios_home.Prelude.Float.{Float}
use helios_home.Prelude.Json.{Repr}
use helios_home.Discovery.{RawCandidate}
use helios_home.Discovery.Merge.{
  strict_recovery_order, strictest, pick_recovery_zone, merge_cluster,
}

module _ {W : Type 0} where
  -- The zones of the candidates are at most as strict as `bound`.
  abbrev pub AreWithin : ℕ → List (RawCandidate W) → Type 0
  AreWithin bound [] = Unit
  AreWithin bound (c ∷ cs) = (strict_recovery_order c.recovery_zone ≤ bound) × AreWithin bound cs

  AreWithin-mono : (a b : ℕ) (cs : List (RawCandidate W)) → a ≤ b → AreWithin a cs → AreWithin b cs
  AreWithin-mono a b [] h k = tt
  AreWithin-mono a b (c ∷ cs) h k = (omega (arith, h, k.0), AreWithin-mono a b cs h k.1)

  stricter-AreWithin :
      (bound : ℕ) (best c : RawCandidate W) (cs : List (RawCandidate W)) (above : Bool)
      → ltb (strict_recovery_order best.recovery_zone) (strict_recovery_order c.recovery_zone)
        ≡ above
      → AreWithin bound ((if above then c else best) ∷ cs)
      → AreWithin bound (best ∷ c ∷ cs)
  stricter-AreWithin bound best c cs true h (k, rest) = (ground (arith, h, k), (k, rest))
  stricter-AreWithin bound best c cs false h (k, rest) = (k, (ground (arith, h, k), rest))

  strictest-AreWithin :
      (best : RawCandidate W) (cs : List (RawCandidate W))
      → AreWithin (strict_recovery_order (strictest best cs).recovery_zone) (best ∷ cs)
  unfolding strictest
  strictest-AreWithin best [] = (omega arith, tt)
  strictest-AreWithin best (c ∷ cs) =
      let above =
        ltb (strict_recovery_order best.recovery_zone) (strict_recovery_order c.recovery_zone) in
      stricter-AreWithin _ best c cs above refl (strictest-AreWithin (if above then c else best) cs)

  pick_recovery_zone-AreWithin :
      (first : RawCandidate W) (others : List (RawCandidate W)) (base : String)
      → AreWithin (strict_recovery_order (pick_recovery_zone first others base)) (first ∷ others)
  unfolding pick_recovery_zone
  pick_recovery_zone-AreWithin first others base =
      chosen (strictest first others).recovery_zone (strictest-AreWithin first others)
    where
      chosen :
          (zone : String)
          → AreWithin (strict_recovery_order zone) (first ∷ others)
          → AreWithin (strict_recovery_order (if truthy zone then zone else base)) (first ∷ others)
      chosen String.[] h = AreWithin-mono 0 _ (first ∷ others) (omega arith) h
      chosen (String.◌∷◌ c s) h = h

module _ {W : Type 0} ⦃fl : Float W⦄ ⦃r : Repr W⦄ where
  -- Candidates that are made one are recovered at least as carefully as each of them would be: the zone
  -- of the merged candidate is at least as strict as the zone of every member.
  pub merge_cluster-AreWithin :
      (first : RawCandidate W) (others : List (RawCandidate W))
      → AreWithin
          (strict_recovery_order (merge_cluster first others).recovery_zone)
          (first ∷ others)
  unfolding merge_cluster
  merge_cluster-AreWithin first [] = (omega arith, tt)
  merge_cluster-AreWithin first (c ∷ cs) = pick_recovery_zone-AreWithin first (c ∷ cs) _
