-- ===== src/Domain/Incident.antt =====
-- src/eset_incident_ai/domain/entities/incident.py and detection.py: the incident that an analysis
-- starts from, and a detection of it.
use eset_incident_ai.Prelude.{ℕ, String, Option, List, Bool}
use eset_incident_ai.Value.{Fields}
use eset_incident_ai.Domain.Severity.{Severity, is_severe}

pub record Detection : Type 0 where
  pub id : String
  pub external_id : String
  pub title : String
  pub severity : Severity
  pub category : Option String
  pub occurred_at : Option ℕ
  pub summary : Option String
  pub object_name : Option String
  pub object_hash_sha1 : Option String
  pub user_name : Option String
  pub device_name : Option String
  pub normalized_payload : Fields

-- `Detection.requires_human_approval`.
abbrev pub detection_requires_approval : Detection → Bool
detection_requires_approval d = is_severe d.severity

pub record Incident : Type 0 where
  pub id : String
  pub external_id : String
  pub title : String
  pub severity : Severity
  pub detected_at : Option ℕ
  pub summary : Option String
  pub normalized_payload : Fields
  pub detections : List Detection

abbrev pub requires_human_approval : Incident → Bool
requires_human_approval i = is_severe i.severity
