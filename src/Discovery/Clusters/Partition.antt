-- ===== src/Discovery/Clusters/Partition.antt =====
-- The clusters are a partition of the candidates.
use helios_home.Prelude.{subst, sym, String, true, false, List, [], ◌∷◌, ◌++◌, Bool-cases, inl, inr}
use mathlib.Core.List.{Perm, append_assoc, append-nil, perm_append_comm, perm_middle}
use mathlib.Core.List.Perm
use helios_home.Prelude.Json.{Repr}
use helios_home.Discovery.{RawCandidate}
use helios_home.Discovery.Identity.{candidate_identity_keys}
use helios_home.Discovery.Clusters.{
  Cluster, meets, members, taken, absorbed, matched, place, clusters_of,
}

module _ {W : Type 0} where
  abbrev pub all_members : List (Cluster W) → List (RawCandidate W)
  all_members [] = []
  all_members (d ∷ ds) = members d ++ all_members ds

  absorbed-perm :
      (t : Cluster W) (ds : List (Cluster W))
      → Perm (members (absorbed t ds)) (members t ++ all_members ds)
  unfolding absorbed
  absorbed-perm t [] = rw (append-nil (members t)) (Perm.refl _)
  absorbed-perm t (d ∷ ds) = Perm.trans (Perm.append_right (members d) (absorbed-perm t ds)) (
      rw (append_assoc (members t) (all_members ds) (members d))
        (Perm.append_left (members t) (perm_append_comm (all_members ds) (members d))))

  swapped : (xs ys zs : List (RawCandidate W)) → Perm (xs ++ (ys ++ zs)) (ys ++ (xs ++ zs))
  swapped xs ys zs =
      rw (sym (append_assoc xs ys zs))
        (rw (sym (append_assoc ys xs zs)) (Perm.append_right zs (perm_append_comm xs ys)))

  matched-perm :
      (keys : List String) (ds : List (Cluster W))
      → Perm
          (all_members ds)
          (all_members (matched true keys ds) ++ all_members (matched false keys ds))
  unfolding matched
  matched-perm keys [] = Perm.refl _
  matched-perm keys (d ∷ ds) =
      let yes_ = all_members (matched true keys ds) in
      let no_ = all_members (matched false keys ds) in
      let step = Perm.append_left (members d) (matched-perm keys ds) in
      elim (Bool-cases (meets keys d.keys)) [
        | inl meet ↦ rw meet (rw (append_assoc (members d) yes_ no_) step)
        | inr apart ↦ rw apart (Perm.trans step (swapped (members d) yes_ no_))
      ]

  taken-perm :
      (c : RawCandidate W) (keys : List String) (d : Cluster W) (ds : List (Cluster W))
      → Perm
          (members (absorbed (taken c keys d) (matched true keys ds))
            ++ all_members (matched false keys ds))
          (c ∷ (members d ++ all_members ds))
  taken-perm c keys d ds =
      let t = taken c keys d in
      let yes_ = all_members (matched true keys ds) in
      let no_ = all_members (matched false keys ds) in
      let joined : Perm ((members t ++ yes_) ++ no_) (members t ++ all_members ds) =
        rw (append_assoc (members t) yes_ no_)
          (Perm.append_left (members t) (Perm.symm (matched-perm keys ds))) in
      let middle : Perm (members t ++ all_members ds) (c ∷ (members d ++ all_members ds)) =
        subst (λ l. Perm l (c ∷ (members d ++ all_members ds)))
          (sym (append_assoc (members d) (c ∷ []) (all_members ds)))
          (perm_middle (members d) (all_members ds)) in
      Perm.trans (Perm.append_right no_ (absorbed-perm t (matched true keys ds)))
        (Perm.trans joined middle)

  place-perm :
      (c : RawCandidate W) (keys : List String) (ds : List (Cluster W))
      → Perm (all_members (place c keys ds)) (c ∷ all_members ds)
  unfolding place
  place-perm c keys [] = Perm.refl _
  place-perm c keys (d ∷ ds) = elim (Bool-cases (meets keys d.keys)) [
    | inl meet ↦ rw meet (taken-perm c keys d ds)
    | inr apart ↦ rw apart (
        Perm.trans (Perm.append_left (members d) (place-perm c keys ds))
          (perm_middle (members d) (all_members ds)))
  ]

module _ {W : Type 0} ⦃r : Repr W⦄ where
  clusters_of_from :
      (ds : List (Cluster W)) (cs : List (RawCandidate W))
      → Perm (all_members (clusters_of ds cs)) (cs ++ all_members ds)
  unfolding clusters_of
  clusters_of_from ds [] = Perm.refl _
  clusters_of_from ds (c ∷ cs) =
      Perm.trans (clusters_of_from (place c (candidate_identity_keys c) ds) cs) (
        Perm.trans (Perm.append_left cs (place-perm c (candidate_identity_keys c) ds))
          (perm_middle cs (all_members ds)))

  -- The clusters are a partition of the candidates: together they have each candidate as often as the
  -- input has it, and nothing else.
  pub clusters_of-perm :
      (candidates : List (RawCandidate W))
      → Perm (all_members (clusters_of [] candidates)) candidates
  clusters_of-perm candidates =
      subst (Perm (all_members (clusters_of [] candidates))) (append-nil candidates)
        (clusters_of_from [] candidates)
