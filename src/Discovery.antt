-- ===== src/Discovery.antt =====
-- Discovery: the candidates of services/discovery_blueprints.py, and how
-- services/candidate_reconciliation.py makes one of those that are the same device.
pub mod Identity
pub mod Rank
pub mod Merge
pub mod Clusters
mod Tests
use helios_home.Prelude.{String, Option, List}
use helios_home.Prelude.Json.{Fields}

pub record RawCandidate (W : Type 0) : Type 0 where
  pub candidate_id : String
  pub device_id : String
  pub asset_id : String
  pub asset_name : String
  pub display_name : String
  pub manufacturer : String
  pub model : String
  pub firmware : String
  pub device_type : String
  pub discovery_sources : List String
  pub protocols : List String
  pub telemetry : Fields W
  pub evidence : Fields W
  pub recovery_zone : String
  pub issue_code : Option String
  pub capabilities_hint : Fields W
