-- ===== src/Discovery/Clusters/Apart.antt =====
-- Candidates of different clusters share no identity key.
pub mod Keys
use helios_home.Prelude.{
  ◌≡◌, refl, sym, ap, ◌∙◌, String, Bool, true, false, ◌||◌, List, [], ◌∷◌, ◌++◌, if◌then◌else◌,
  one_of, Bool-cases, inl, inr, arith,
}
use helios_home.Prelude.Json.{Repr}
use helios_home.Discovery.{RawCandidate}
use helios_home.Discovery.Identity.{add_keys, candidate_identity_keys}
use helios_home.Discovery.Clusters.{
  Cluster, meets, members, taken, absorbed, matched, place, clusters_of,
}
use helios_home.Discovery.Clusters.Apart.Keys.{
  Apart, Apart-sym, one_of-add_keys, meets-Apart, Apart-meets, Apart-add_keys,
}

module _ {W : Type 0} where
  abbrev pub ApartAll : List String → List (Cluster W) → Type 0
  ApartAll ks [] = Unit
  ApartAll ks (d ∷ ds) = Apart ks d.keys × ApartAll ks ds

  abbrev pub AreApart : List (Cluster W) → Type 0
  AreApart [] = Unit
  AreApart (d ∷ ds) = ApartAll d.keys ds × AreApart ds

  -- Every cluster of the second list is apart from those of the first.
  abbrev AreCrossed : List (Cluster W) → List (Cluster W) → Type 0
  AreCrossed ds [] = Unit
  AreCrossed ds (u ∷ us) = ApartAll u.keys ds × AreCrossed ds us

  absorbed-Apart :
      (ks : List String) (t : Cluster W) (ds : List (Cluster W))
      → Apart ks t.keys
      → ApartAll ks ds
      → Apart ks (absorbed t ds).keys
  unfolding absorbed
  absorbed-Apart ks t [] h h' = h
  absorbed-Apart ks t (d ∷ ds) h (near, far) =
      Apart-add_keys ks (absorbed t ds).keys d.keys (absorbed-Apart ks t ds h far) near

  matched-ApartAll :
      (wanted : Bool) (keys ks : List String) (ds : List (Cluster W))
      → ApartAll ks ds
      → ApartAll ks (matched wanted keys ds)
  unfolding matched
  matched-ApartAll wanted keys ks [] h = tt
  matched-ApartAll true keys ks (d ∷ ds) (near, far) =
      let rest = matched-ApartAll true keys ks ds far in
      elim (Bool-cases (meets keys d.keys)) [
        | inl meet ↦ rw meet (near, rest)
        | inr apart ↦ rw apart rest
      ]
  matched-ApartAll false keys ks (d ∷ ds) (near, far) =
      let rest = matched-ApartAll false keys ks ds far in
      elim (Bool-cases (meets keys d.keys)) [
        | inl meet ↦ rw meet rest
        | inr apart ↦ rw apart (near, rest)
      ]

  unmatched_apart :
      (keys : List String) (ds : List (Cluster W)) → ApartAll keys (matched false keys ds)
  unfolding matched
  unmatched_apart keys [] = tt
  unmatched_apart keys (d ∷ ds) = elim (Bool-cases (meets keys d.keys)) [
    | inl meet ↦ rw meet (unmatched_apart keys ds)
    | inr apart ↦ rw apart (meets-Apart keys d.keys apart, unmatched_apart keys ds)
  ]

  unmatched-AreApart :
      (keys : List String) (ds : List (Cluster W)) → AreApart ds → AreApart (matched false keys ds)
  unfolding matched
  unmatched-AreApart keys [] h = tt
  unmatched-AreApart keys (d ∷ ds) (near, far) = elim (Bool-cases (meets keys d.keys)) [
    | inl meet ↦ rw meet (unmatched-AreApart keys ds far)
    | inr apart ↦
        rw apart (matched-ApartAll false keys d.keys ds near, unmatched-AreApart keys ds far)
  ]

  crossed_cons :
      (d : Cluster W) (ds us : List (Cluster W))
      → ApartAll d.keys us
      → AreCrossed ds us
      → AreCrossed (d ∷ ds) us
  crossed_cons d ds [] h h' = tt
  crossed_cons d ds (u ∷ us) (near, far) (here, there) =
      ((Apart-sym d.keys u.keys near, here), crossed_cons d ds us far there)

  matched-AreCrossed :
      (keys : List String) (ds : List (Cluster W))
      → AreApart ds
      → AreCrossed (matched true keys ds) (matched false keys ds)
  unfolding matched
  matched-AreCrossed keys [] h = tt
  matched-AreCrossed keys (d ∷ ds) (near, far) =
      let rest = matched-AreCrossed keys ds far in
      elim (Bool-cases (meets keys d.keys)) [
        | inl meet ↦ rw meet (
            crossed_cons d (matched true keys ds) (matched false keys ds)
              (matched-ApartAll false keys d.keys ds near) rest)
        | inr apart ↦ rw apart (matched-ApartAll true keys d.keys ds near, rest)
      ]

  -- The cluster that a candidate joins stays apart from those that it does not match.
  target_apart :
      (c : RawCandidate W) (keys : List String) (d : Cluster W) (ds us : List (Cluster W))
      → ApartAll d.keys us
      → ApartAll keys us
      → AreCrossed ds us
      → ApartAll (absorbed (taken c keys d) ds).keys us
  target_apart c keys d ds [] h h' h'' = tt
  target_apart c keys d ds (u ∷ us) (near, far) (near', far') (here, there) = (
    Apart-sym u.keys (absorbed (taken c keys d) ds).keys (
        absorbed-Apart u.keys (taken c keys d) ds
          (Apart-add_keys u.keys d.keys keys (Apart-sym d.keys u.keys near)
            (Apart-sym keys u.keys near'))
          here),
    target_apart c keys d ds us far far' there,
  )

  place-ApartAll :
      (c : RawCandidate W) (keys ks : List String) (ds : List (Cluster W))
      → ApartAll ks ds
      → Apart ks keys
      → ApartAll ks (place c keys ds)
  unfolding place
  place-ApartAll c keys ks [] h k = (k, tt)
  place-ApartAll c keys ks (d ∷ ds) (near, far) k = elim (Bool-cases (meets keys d.keys)) [
    | inl meet ↦ rw meet (
      absorbed-Apart ks (taken c keys d) (matched true keys ds)
          (Apart-add_keys ks d.keys keys near k) (matched-ApartAll true keys ks ds far),
      matched-ApartAll false keys ks ds far,
    )
    | inr apart ↦ rw apart (near, place-ApartAll c keys ks ds far k)
  ]

  pub place-AreApart :
      (c : RawCandidate W) (keys : List String) (ds : List (Cluster W))
      → AreApart ds
      → AreApart (place c keys ds)
  unfolding place
  place-AreApart c keys [] h = (tt, tt)
  place-AreApart c keys (d ∷ ds) (near, far) = elim (Bool-cases (meets keys d.keys)) [
    | inl meet ↦ rw meet (
      target_apart c keys d (matched true keys ds) (matched false keys ds)
          (matched-ApartAll false keys d.keys ds near) (unmatched_apart keys ds)
          (matched-AreCrossed keys ds far),
      unmatched-AreApart keys ds far,
    )
    | inr apart ↦ rw apart (
      place-ApartAll c keys d.keys ds near (Apart-sym keys d.keys (meets-Apart keys d.keys apart)),
      place-AreApart c keys ds far,
    )
  ]
