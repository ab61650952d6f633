-- ===== src/Discovery/Clusters.antt =====
-- services/candidate_reconciliation.py: `reconcile_candidates`, which makes clusters of the candidates
-- that share an identity key. The program's two lists, of the clusters and of their keys, are one here.
pub mod Partition
pub mod Apart
pub mod Linked
pub mod Separate
use helios_home.Prelude.{
  String, Bool, true, false, ◌&&◌, ◌||◌, List, [], ◌∷◌, ◌++◌, if◌then◌else◌, one_of, lower,
}
use helios_home.Prelude.Float.{Float}
use helios_home.Prelude.Sort.{sort_by}
use helios_home.Prelude.Json.{Repr}
use helios_home.Discovery.{RawCandidate}
use helios_home.Discovery.Identity.{add_keys, candidate_identity_keys}
use helios_home.Discovery.Merge.{le_text, merge_cluster}

pub record Cluster (W : Type 0) : Type 0 where
  pub first : RawCandidate W
  pub others : List (RawCandidate W)
  pub keys : List String

-- `existing_keys.intersection(candidate_keys)`, as a test
abbrev pub meets : List String → List String → Bool
meets [] keys = false
meets (k ∷ ks) keys = one_of k keys || meets ks keys

module _ {W : Type 0} where
  abbrev pub members : Cluster W → List (RawCandidate W)
  members cluster = cluster.first ∷ cluster.others

  -- The candidate joins the first cluster that it matches.
  abbrev pub taken : RawCandidate W → List String → Cluster W → Cluster W
  taken c keys cluster = record cluster {
    others = cluster.others ++ c ∷ [];
    keys = add_keys cluster.keys keys;
  }

  -- The other clusters that it matches, the last one first.
  unfoldable pub absorbed : Cluster W → List (Cluster W) → Cluster W
  unfolding add_keys
  absorbed target [] = target
  absorbed target (d ∷ ds) =
      let rest = absorbed target ds in
      record rest { others = rest.others ++ members d; keys = add_keys rest.keys d.keys }

  -- The clusters that share a key with `keys`, or that share none.
  unfoldable pub matched : Bool → List String → List (Cluster W) → List (Cluster W)
  matched wanted keys [] = []
  matched true keys (d ∷ ds) =
      let rest = matched true keys ds in if meets keys d.keys then d ∷ rest else rest
  matched false keys (d ∷ ds) =
      let rest = matched false keys ds in if meets keys d.keys then rest else d ∷ rest

  -- One round of the loop.
  unfoldable pub place : RawCandidate W → List String → List (Cluster W) → List (Cluster W)
  unfolding absorbed matched add_keys
  place c keys [] = record { first = c; others = []; keys = keys } ∷ []
  place c keys (d ∷ ds) =
      let rest = place c keys ds in
      if meets keys d.keys
      then absorbed (taken c keys d) (matched true keys ds) ∷ matched false keys ds
      else d ∷ rest

module _ {W : Type 0} ⦃r : Repr W⦄ where
  unfoldable pub clusters_of : List (Cluster W) → List (RawCandidate W) → List (Cluster W)
  unfolding place candidate_identity_keys
  clusters_of clusters [] = clusters
  clusters_of clusters (c ∷ cs) = clusters_of (place c (candidate_identity_keys c) clusters) cs

module _ {W : Type 0} ⦃fl : Float W⦄ ⦃r : Repr W⦄ where
  merged : List (Cluster W) → List (RawCandidate W)
  unfolding merge_cluster
  merged [] = []
  merged (d ∷ ds) = merge_cluster d.first d.others ∷ merged ds

  unfoldable pub reconcile_candidates : List (RawCandidate W) → List (RawCandidate W)
  unfolding clusters_of merged sort_by lower
  reconcile_candidates candidates =
      sort_by (λ a b. le_text (lower a.display_name) (lower b.display_name))
        (merged (clusters_of [] candidates))
