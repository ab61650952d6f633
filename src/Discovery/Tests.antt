-- ===== src/Discovery/Tests.antt =====
-- The theorems of the discovery at three candidates, of which two are the same device.
use helios_home.Prelude.{◌≡◌, refl, String, true, false, none, List, [], ◌∷◌, ℤ}
use mathlib.Core.List.{Perm}
use helios_home.Prelude.Float.{units}
use helios_home.Prelude.Json.{Repr, text, bool, list, nil, cons, end, field}
use helios_home.Discovery.{RawCandidate}
use helios_home.Discovery.Identity.{normalize_text, has_double, candidate_identity_keys}
use helios_home.Discovery.Identity.Normal.{normalize_text_lem}
use helios_home.Discovery.Rank.{source_rank, source_priority}
use helios_home.Discovery.Merge.{merge_cluster, strict_recovery_order}
use helios_home.Discovery.Merge.Zone.{AreWithin, merge_cluster-AreWithin}
use helios_home.Discovery.Clusters.{clusters_of, reconcile_candidates}
use helios_home.Discovery.Clusters.Partition.{all_members, clusters_of-perm}
use helios_home.Discovery.Clusters.Separate.{AreSeparate, clusters_of-AreSeparate}
use helios_home.Discovery.Clusters.Linked.{AreConnected, clusters_of-AreConnected}

instance abbrev shown : Repr ℤ
shown = record { repr = λ v. "value" }

abbrev inverter : RawCandidate ℤ
inverter = record {
  candidate_id = "c1";
  device_id = "d1";
  asset_id = "a1";
  asset_name = "Inverter";
  display_name = "Inverter";
  manufacturer = "Maker";
  model = "unknown";
  firmware = "1.0";
  device_type = "inverter";
  discovery_sources = "modbus_live" ∷ [];
  protocols = "modbus" ∷ [];
  telemetry = end;
  evidence = field "network_macs" (list (cons (text "AA:BB:01") nil)) end;
  recovery_zone = "auto_apply";
  issue_code = none;
  capabilities_hint = field "monitorable" (bool true) end;
}

abbrev seen_again : RawCandidate ℤ
seen_again = record inverter {
  candidate_id = "c2";
  display_name = "Local HTTP device";
  model = "Model 5";
  discovery_sources = "local_network_live" ∷ [];
  evidence = field "network_macs" (text "aabb01") end;
  recovery_zone = "human_gated";
  capabilities_hint = end;
}

abbrev charger : RawCandidate ℤ
charger = record inverter {
  candidate_id = "c3";
  display_name = "Charger";
  evidence = field "mqtt_device_slug" (text "Wall  Box") end;
}

abbrev found : List (RawCandidate ℤ)
found = inverter ∷ charger ∷ seen_again ∷ []

names : List (RawCandidate ℤ) → List (String × (String × String))
names [] = []
names (c ∷ cs) = (c.display_name, (c.model, c.recovery_zone)) ∷ names cs

slug_key : candidate_identity_keys charger ≡ "mqtt-slug:wall-box" ∷ []
unfolding candidate_identity_keys
slug_key = refl

reconciled :
    names (reconcile_candidates found)
    ≡ ("Charger", ("unknown", "auto_apply")) ∷ ("Inverter", ("Model 5", "human_gated")) ∷ []
unfolding names reconcile_candidates source_rank source_priority
reconciled = refl

normalize_text_lem_example : has_double false (normalize_text " Wall -- Box! ") ≡ false
normalize_text_lem_example = normalize_text_lem " Wall -- Box! "

merge_cluster-AreWithin_example :
    AreWithin
      (strict_recovery_order (merge_cluster inverter (seen_again ∷ [])).recovery_zone)
      (inverter ∷ seen_again ∷ [])
merge_cluster-AreWithin_example = merge_cluster-AreWithin inverter (seen_again ∷ [])

clusters_of-perm_example : Perm (all_members (clusters_of [] found)) found
clusters_of-perm_example = clusters_of-perm found

clusters_of-AreSeparate_example : AreSeparate (clusters_of [] found)
clusters_of-AreSeparate_example = clusters_of-AreSeparate found

clusters_of-AreConnected_example : AreConnected (clusters_of [] found)
clusters_of-AreConnected_example = clusters_of-AreConnected found
