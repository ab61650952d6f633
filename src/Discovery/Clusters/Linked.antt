-- ===== src/Discovery/Clusters/Linked.antt =====
-- The members of a cluster are linked by the keys that they share.
pub mod Chains
use helios_home.Prelude.{
  ◌≡◌, refl, String, Bool, true, false, List, [], ◌∷◌, ◌++◌, if◌then◌else◌, one_of, Bool-cases, inl,
  inr,
}
use mathlib.Core.List.{Memᴰ}
use helios_home.Prelude.Json.{Repr}
use helios_home.Discovery.{RawCandidate}
use helios_home.Discovery.Identity.{candidate_identity_keys}
use helios_home.Discovery.Clusters.{
  Cluster, meets, members, taken, absorbed, matched, place, clusters_of,
}
use helios_home.Discovery.Clusters.Linked.Chains.{
  Linked, AllLinked, Owned, Owner, same, joined, mem_left, mem_right, meets_owner, single_owned,
}

module _ {W : Type 0} ⦃r : Repr W⦄ where
  -- All members are linked to the first, and the keys are keys of members.
  abbrev IsLinked : Cluster W → Type 0
  IsLinked d = AllLinked (members d) d.first (members d) × Owned (members d) d.keys

  abbrev AreLinked : List (Cluster W) → Type 0
  AreLinked [] = Unit
  AreLinked (d ∷ ds) = IsLinked d × AreLinked ds

  -- Every cluster of the list shares a key with `keys`.
  abbrev AreMet : List String → List (Cluster W) → Type 0
  AreMet keys [] = Unit
  AreMet keys (d ∷ ds) = (meets keys d.keys ≡ true) × AreMet keys ds

  matched-AreMet : (keys : List String) (ds : List (Cluster W)) → AreMet keys (matched true keys ds)
  unfolding matched
  matched-AreMet keys [] = tt
  matched-AreMet keys (d ∷ ds) = elim (Bool-cases (meets keys d.keys)) [
    | inl meet ↦ rw meet (meet, matched-AreMet keys ds)
    | inr apart ↦ rw apart (matched-AreMet keys ds)
  ]

  matched-AreLinked :
      (wanted : Bool) (keys : List String) (ds : List (Cluster W))
      → AreLinked ds
      → AreLinked (matched wanted keys ds)
  unfolding matched
  matched-AreLinked wanted keys [] h = tt
  matched-AreLinked true keys (d ∷ ds) (near, far) =
      let rest = matched-AreLinked true keys ds far in
      elim (Bool-cases (meets keys d.keys)) [
        | inl meet ↦ rw meet (near, rest)
        | inr apart ↦ rw apart rest
      ]
  matched-AreLinked false keys (d ∷ ds) (near, far) =
      let rest = matched-AreLinked false keys ds far in
      elim (Bool-cases (meets keys d.keys)) [
        | inl meet ↦ rw meet rest
        | inr apart ↦ rw apart (near, rest)
      ]

  absorbed-member :
      (c : RawCandidate W) (t : Cluster W) (ds : List (Cluster W))
      → Memᴰ c (members t)
      → Memᴰ c (members (absorbed t ds))
  unfolding absorbed
  absorbed-member c t [] h = h
  absorbed-member c t (d ∷ ds) h =
      mem_left c (members (absorbed t ds)) (members d) (absorbed-member c t ds h)

  absorbed-IsLinked :
      (c : RawCandidate W) (t : Cluster W) (ds : List (Cluster W))
      → Memᴰ c (members t)
      → IsLinked t
      → AreMet (candidate_identity_keys c) ds
      → AreLinked ds
      → IsLinked (absorbed t ds)
  unfolding absorbed
  absorbed-IsLinked c t [] h k m l = k
  absorbed-IsLinked c t (d ∷ ds) h k (meet, met) (near, far) =
      let rest = absorbed t ds in
      let (n, in_d, shared, back_) = meets_owner c (members d) d.keys near.1 meet in
      joined rest.first d.first c n (members rest) (members d) rest.keys d.keys
        (absorbed-IsLinked c t ds h k met far) near (absorbed-member c t ds h) in_d shared

  taken-IsLinked :
      (c : RawCandidate W) (d : Cluster W)
      → meets (candidate_identity_keys c) d.keys ≡ true
      → IsLinked d
      → IsLinked (taken c (candidate_identity_keys c) d)
  taken-IsLinked c d meet h =
      let (n, in_d, ahead, shared) = meets_owner c (members d) d.keys h.1 meet in
      joined d.first c n c (members d) (c ∷ []) d.keys (candidate_identity_keys c) h
        ((same, tt), single_owned c) in_d (Memᴰ.head refl) shared

  place-AreLinked :
      (c : RawCandidate W) (ds : List (Cluster W))
      → AreLinked ds
      → AreLinked (place c (candidate_identity_keys c) ds)
  unfolding place
  place-AreLinked c [] h = (((same, tt), single_owned c), tt)
  place-AreLinked c (d ∷ ds) (near, far) =
      let keys = candidate_identity_keys c in
      elim (Bool-cases (meets keys d.keys)) [
        | inl meet ↦ rw meet (
          absorbed-IsLinked c (taken c keys d) (matched true keys ds)
              (mem_right c (members d) (c ∷ []) (Memᴰ.head refl)) (taken-IsLinked c d meet near)
              (matched-AreMet keys ds) (matched-AreLinked true keys ds far),
          matched-AreLinked false keys ds far,
        )
        | inr apart ↦ rw apart (near, place-AreLinked c ds far)
      ]

  -- What is left of the invariant for the reader.
  abbrev pub AreConnected : List (Cluster W) → Type 0
  AreConnected [] = Unit
  AreConnected (d ∷ ds) = AllLinked (members d) d.first (members d) × AreConnected ds

  all-AreConnected : (ds : List (Cluster W)) → AreLinked ds → AreConnected ds
  all-AreConnected [] h = tt
  all-AreConnected (d ∷ ds) (near, far) = (near.0, all-AreConnected ds far)

  clusters_of-AreConnected_from :
      (ds : List (Cluster W)) (cs : List (RawCandidate W))
      → AreLinked ds
      → AreConnected (clusters_of ds cs)
  unfolding clusters_of
  clusters_of-AreConnected_from ds [] h = all-AreConnected ds h
  clusters_of-AreConnected_from ds (c ∷ cs) h =
      clusters_of-AreConnected_from (place c (candidate_identity_keys c) ds) cs
        (place-AreLinked c ds h)

  -- Only candidates that are linked are made one: in each cluster a chain of members of that cluster, of
  -- which each shares an identity key with the next, leads from the first member to every other.
  pub clusters_of-AreConnected :
      (candidates : List (RawCandidate W)) → AreConnected (clusters_of [] candidates)
  clusters_of-AreConnected candidates = clusters_of-AreConnected_from [] candidates tt
