-- ===== src/UseCases/Single.antt =====
-- The use cases of src/eset_incident_ai/application/use_cases that make one call (collect_incidents.py,
-- notify_analysis.py, approve_analysis.py, index_incident.py, list_collection_runs.py and
-- list_detection_collection_runs.py), rag/retriever.py and rag/filters.py, and
-- domain/enums/workflow_status.py.
use eset_incident_ai.Prelude.{
  ℕ, String, Bool, true, false, ◌&&◌, Option, none, some, List, [], ◌∷◌, ◌++◌, str_eq,
  if◌then◌else◌,
}
use eset_incident_ai.Value.{Fields}
use eset_incident_ai.World.{Run, DetectionRun}
use eset_incident_ai.Exec.{Exec}
use eset_incident_ai.Domain.Analysis.{RetrievedEvidence}
use eset_incident_ai.Discord.Webhook.{Notifier, send}
use eset_incident_ai.Persistence.Runs.Incidents as IncidentRuns
use eset_incident_ai.Persistence.Runs.Detections as DetectionRuns

-- `WorkflowStatus`, and its values.
pub data WorkflowStatus : Type 0 where
  pending running waiting_approval approved rejected notified failed : WorkflowStatus

abbrev pub workflow_status : WorkflowStatus → String
workflow_status pending = "pending"
workflow_status running = "running"
workflow_status waiting_approval = "waiting_approval"
workflow_status approved = "approved"
workflow_status rejected = "rejected"
workflow_status notified = "notified"
workflow_status failed = "failed"

abbrev flat : List (List Fields) → List Fields
flat [] = []
flat (page ∷ pages) = page ++ flat pages

-- `CollectIncidents.execute`, on the pages of a source.
abbrev pub collect_incidents :
    (Option String → ℕ → List (List Fields)) → Option String → ℕ → List Fields
collect_incidents iter_incidents updated_after page_size =
    flat (iter_incidents updated_after page_size)

-- `NotifyAnalysis.execute`.
abbrev pub notify_analysis : Notifier → Fields → Exec (Unit {0})
notify_analysis notifier payload = send notifier payload

-- `ApproveAnalysis.execute`.
abbrev pub approve_analysis : Bool → String
approve_analysis is_approved = if is_approved then "approved" else "rejected"

-- `IndexIncident.execute`.
abbrev pub index_incident : String → String
index_incident incident_id = incident_id

-- `ListCollectionRuns`, `ListDetectionCollectionRuns`.
abbrev pub list_incident_runs : ℕ → Exec (List Run)
list_incident_runs limit = IncidentRuns.list_recent limit

abbrev pub list_detection_runs : ℕ → Exec (List DetectionRun)
list_detection_runs limit = DetectionRuns.list_recent limit

-- `Retriever.retrieve`.
abbrev pub retrieve :
    (String → String → ℕ → List RetrievedEvidence) → String → String → ℕ → List RetrievedEvidence
retrieve search text tenant_scope limit = search text tenant_scope limit

abbrev lookup : String → List (String × String) → Option String
lookup key [] = none
lookup key ((k, v) ∷ rest) = if str_eq k key then some v else lookup key rest

abbrev is_value : String → Option String → Bool
is_value v none = false
is_value v (some w) = str_eq w v

-- `metadata_matches`.
abbrev pub metadata_matches : List (String × String) → List (String × String) → Bool
metadata_matches metadata [] = true
metadata_matches metadata ((k, v) ∷ rest) =
    is_value v (lookup k metadata) && metadata_matches metadata rest
