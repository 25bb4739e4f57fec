-- ===== src/Tests/Agents.antt =====
-- A run of the analysis graph, and its theorems at it.
use eset_incident_ai.Prelude.{true, none, some}
use eset_incident_ai.Agents.State.{IncidentAgentState, ApprovalStatus}
use eset_incident_ai.Agents.Graph.Outcome.{Ends, invoke-Ends}

abbrev confident : IncidentAgentState
confident = record {
  workflow_run_id = some "run";
  incident_id = some "a";
  incident = none;
  sanitized_incident = none;
  risk_score = none;
  severity = none;
  search_queries = none;
  retrieved_evidence = none;
  investigation = none;
  root_cause = none;
  remediation = none;
  critique = none;
  security_review = none;
  confidence = some 9000;
  retry_count = none;
  requires_human_approval = some true;
  approval_status = some ApprovalStatus.approved;
  notification_payload = none;
  errors = none;
}

invoke-Ends_example : Ends confident
invoke-Ends_example = invoke-Ends confident
