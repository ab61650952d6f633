-- ===== src/Discovery/Clusters/Separate.antt =====
-- The keys of a cluster are those of its members, so that members of different clusters share none.
use helios_home.Prelude.{
  ◌≡◌, String, Bool, true, false, List, [], ◌∷◌, ◌++◌, one_of, Bool-cases, inl, inr, arith,
}
use helios_home.Prelude.Json.{Repr}
use helios_home.Discovery.{RawCandidate}
use helios_home.Discovery.Identity.{add_keys, candidate_identity_keys}
use helios_home.Discovery.Clusters.{
  Cluster, meets, members, taken, absorbed, matched, place, clusters_of,
}
use helios_home.Discovery.Clusters.Apart.{ApartAll, AreApart, place-AreApart}
use helios_home.Discovery.Clusters.Apart.Keys.{Apart, one_of-add_keys, Apart-meets}

abbrev Within : List String → List String → Type 0
Within a b = (k : String) → one_of k a ≡ true → one_of k b ≡ true

Within-left : (a b : List String) → Within a (add_keys a b)
Within-left a b k h = ground (arith, one_of-add_keys k a b, h)

Within-right : (a b : List String) → Within b (add_keys a b)
Within-right a b k h = ground (arith, one_of-add_keys k a b, h)

module _ {W : Type 0} ⦃r : Repr W⦄ where
  abbrev Covers : List String → List (RawCandidate W) → Type 0
  Covers ks [] = Unit
  Covers ks (c ∷ cs) = Within (candidate_identity_keys c) ks × Covers ks cs

  abbrev AreCovered : List (Cluster W) → Type 0
  AreCovered [] = Unit
  AreCovered (d ∷ ds) = Covers d.keys (members d) × AreCovered ds

  Covers-mono :
      (a b : List String) (cs : List (RawCandidate W)) → Within a b → Covers a cs → Covers b cs
  Covers-mono a b [] h k = tt
  Covers-mono a b (c ∷ cs) h (near, far) =
      (λ key in_c. h key (near key in_c), Covers-mono a b cs h far)

  Covers-append :
      (ks : List String) (cs es : List (RawCandidate W))
      → Covers ks cs
      → Covers ks es
      → Covers ks (cs ++ es)
  Covers-append ks [] es h k = k
  Covers-append ks (c ∷ cs) es (near, far) k = (near, Covers-append ks cs es far k)

  -- Members and keys joined stay covered.
  Covers-joined :
      (a b : List String) (cs es : List (RawCandidate W))
      → Covers a cs
      → Covers b es
      → Covers (add_keys a b) (cs ++ es)
  Covers-joined a b cs es h k =
      Covers-append (add_keys a b) cs es (Covers-mono a (add_keys a b) cs (Within-left a b) h)
        (Covers-mono b (add_keys a b) es (Within-right a b) k)

  absorbed-Covers :
      (t : Cluster W) (ds : List (Cluster W))
      → Covers t.keys (members t)
      → AreCovered ds
      → Covers (absorbed t ds).keys (members (absorbed t ds))
  unfolding absorbed
  absorbed-Covers t [] h k = h
  absorbed-Covers t (d ∷ ds) h (near, far) =
      Covers-joined (absorbed t ds).keys d.keys (members (absorbed t ds)) (members d)
        (absorbed-Covers t ds h far) near

  matched-AreCovered :
      (wanted : Bool) (keys : List String) (ds : List (Cluster W))
      → AreCovered ds
      → AreCovered (matched wanted keys ds)
  unfolding matched
  matched-AreCovered wanted keys [] h = tt
  matched-AreCovered true keys (d ∷ ds) (near, far) =
      let rest = matched-AreCovered true keys ds far in
      elim (Bool-cases (meets keys d.keys)) [
        | inl meet ↦ rw meet (near, rest)
        | inr apart ↦ rw apart rest
      ]
  matched-AreCovered false keys (d ∷ ds) (near, far) =
      let rest = matched-AreCovered false keys ds far in
      elim (Bool-cases (meets keys d.keys)) [
        | inl meet ↦ rw meet rest
        | inr apart ↦ rw apart (near, rest)
      ]

  place-AreCovered :
      (c : RawCandidate W) (ds : List (Cluster W))
      → AreCovered ds
      → AreCovered (place c (candidate_identity_keys c) ds)
  unfolding place
  place-AreCovered c [] h = ((λ k in_c. in_c, tt), tt)
  place-AreCovered c (d ∷ ds) (near, far) =
      let keys = candidate_identity_keys c in
      elim (Bool-cases (meets keys d.keys)) [
        | inl meet ↦ rw meet (
          absorbed-Covers (taken c keys d) (matched true keys ds)
              (Covers-joined d.keys keys (members d) (c ∷ []) near (λ k in_c. in_c, tt))
              (matched-AreCovered true keys ds far),
          matched-AreCovered false keys ds far,
        )
        | inr apart ↦ rw apart (near, place-AreCovered c ds far)
      ]

  -- The candidate shares no identity key with those of the list.
  abbrev pub IsStranger : RawCandidate W → List (RawCandidate W) → Type 0
  IsStranger c [] = Unit
  IsStranger c (e ∷ es) =
      (meets (candidate_identity_keys c) (candidate_identity_keys e) ≡ false) × IsStranger c es

  abbrev pub AreStrangers : List (RawCandidate W) → List (RawCandidate W) → Type 0
  AreStrangers [] es = Unit
  AreStrangers (c ∷ cs) es = IsStranger c es × AreStrangers cs es

  abbrev pub AreStrangersAll : List (RawCandidate W) → List (Cluster W) → Type 0
  AreStrangersAll cs [] = Unit
  AreStrangersAll cs (d ∷ ds) = AreStrangers cs (members d) × AreStrangersAll cs ds

  abbrev pub AreSeparate : List (Cluster W) → Type 0
  AreSeparate [] = Unit
  AreSeparate (d ∷ ds) = AreStrangersAll (members d) ds × AreSeparate ds

  Covers-IsStranger :
      (a b : List String) (c : RawCandidate W) (es : List (RawCandidate W))
      → Apart a b
      → Within (candidate_identity_keys c) a
      → Covers b es
      → IsStranger c es
  Covers-IsStranger a b c [] h k l = tt
  Covers-IsStranger a b c (e ∷ es) h k (near, far) = (
    Apart-meets (candidate_identity_keys c) (candidate_identity_keys e)
        (λ key in_c. outside key (k key in_c)),
    Covers-IsStranger a b c es h k far,
  )
    where
      outside :
          (key : String) → one_of key a ≡ true → one_of key (candidate_identity_keys e) ≡ false
      outside key in_a = elim (Bool-cases (one_of key (candidate_identity_keys e))) [
        | inl in_e ↦ absurd (ground (arith, h key in_a, near key in_e))
        | inr out ↦ out
      ]

  Covers-AreStrangers :
      (a b : List String) (cs es : List (RawCandidate W))
      → Apart a b
      → Covers a cs
      → Covers b es
      → AreStrangers cs es
  Covers-AreStrangers a b [] es h k l = tt
  Covers-AreStrangers a b (c ∷ cs) es h (near, far) l =
      (Covers-IsStranger a b c es h near l, Covers-AreStrangers a b cs es h far l)

  all-AreStrangersAll :
      (a : List String) (cs : List (RawCandidate W)) (ds : List (Cluster W))
      → ApartAll a ds
      → Covers a cs
      → AreCovered ds
      → AreStrangersAll cs ds
  all-AreStrangersAll a cs [] h k l = tt
  all-AreStrangersAll a cs (d ∷ ds) (near, far) k (here, there) = (
    Covers-AreStrangers a d.keys cs (members d) near k here,
    all-AreStrangersAll a cs ds far k there,
  )

  all-AreSeparate : (ds : List (Cluster W)) → AreApart ds → AreCovered ds → AreSeparate ds
  all-AreSeparate [] h k = tt
  all-AreSeparate (d ∷ ds) (near, far) (here, there) =
      (all-AreStrangersAll d.keys (members d) ds near here there, all-AreSeparate ds far there)

  clusters_of-AreSeparate_from :
      (ds : List (Cluster W)) (cs : List (RawCandidate W))
      → AreApart ds
      → AreCovered ds
      → AreSeparate (clusters_of ds cs)
  unfolding clusters_of
  clusters_of-AreSeparate_from ds [] h k = all-AreSeparate ds h k
  clusters_of-AreSeparate_from ds (c ∷ cs) h k =
      clusters_of-AreSeparate_from (place c (candidate_identity_keys c) ds) cs
        (place-AreApart c (candidate_identity_keys c) ds h) (place-AreCovered c ds k)

  -- Candidates that share an identity key are in the same cluster: no member of one cluster shares a key
  -- with a member of another.
  pub clusters_of-AreSeparate :
      (candidates : List (RawCandidate W)) → AreSeparate (clusters_of [] candidates)
  clusters_of-AreSeparate candidates = clusters_of-AreSeparate_from [] candidates tt tt
