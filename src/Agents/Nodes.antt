-- ===== src/Agents/Nodes.antt =====
-- src/eset_incident_ai/agents/nodes: what each node of the graph does to the state.
use eset_incident_ai.Prelude.{true, none, some, []}
use eset_incident_ai.Value.{Fields, text, field, no_fields, put}
use eset_incident_ai.Agents.State.{
  IncidentAgentState, int_count, pending, rejected, get_or, set_default,
}

abbrev pending_llm_gateway : Fields
pending_llm_gateway = field "status" (text "pending_llm_gateway") no_fields

unfoldable pub intake_node : IncidentAgentState → IncidentAgentState
intake_node s = record s {
  retry_count = set_default 0 s.retry_count;
  errors = set_default [] s.errors;
}

unfoldable pub retrieve_node : IncidentAgentState → IncidentAgentState
retrieve_node s = record s { retrieved_evidence = set_default [] s.retrieved_evidence }

unfoldable pub investigate_node : IncidentAgentState → IncidentAgentState
investigate_node s = record s { investigation = some pending_llm_gateway }

unfoldable pub root_cause_node : IncidentAgentState → IncidentAgentState
root_cause_node s = record s { root_cause = some pending_llm_gateway }

unfoldable pub remediation_node : IncidentAgentState → IncidentAgentState
remediation_node s = record s { remediation = some pending_llm_gateway }

unfoldable pub critique_node : IncidentAgentState → IncidentAgentState
critique_node s = record s {
  critique = some (record { unsupported_claim_count = some (int_count 0); passed = some true });
  confidence = set_default 0 s.confidence;
}

unfoldable pub security_review_node : IncidentAgentState → IncidentAgentState
security_review_node s = record s {
  security_review = some (record { pass = none; passed = some true });
}

unfoldable pub approval_node : IncidentAgentState → IncidentAgentState
approval_node s = record s { approval_status = set_default pending s.approval_status }

unfoldable pub reject_node : IncidentAgentState → IncidentAgentState
reject_node s = record s { approval_status = some rejected }

unfoldable pub compose_notification_node : IncidentAgentState → IncidentAgentState
compose_notification_node s = record s {
  notification_payload = set_default no_fields s.notification_payload;
}

-- `{**payload, "delivery_status": …}`.
unfoldable pub notify_node : IncidentAgentState → IncidentAgentState
notify_node s = record s {
  notification_payload =
      some
        (put "delivery_status" (text "pending_notifier") (get_or no_fields s.notification_payload));
}
