-- ===== src/Results.antt =====
-- src/eset_incident_ai/application/dto/collection_result.py: what a collection run reports.
use eset_incident_ai.Prelude.{ℕ, String, List}

-- `IncidentCollectionResult` and `DetectionCollectionResult` have the same fields.
pub record CollectionResult : Type 0 where
  pub collected_count : ℕ
  pub notified_count : ℕ
  pub duplicate_skipped_count : ℕ
  pub pending_approval_count : ℕ
  pub skipped_count : ℕ
  pub observed_keys : List String
