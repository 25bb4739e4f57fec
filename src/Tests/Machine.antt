-- ===== src/Tests/Machine.antt =====
-- The definitions that a run of the detection collector computes with, under one name.
use eset_incident_ai.Prelude.{add_key, add_keys}
use eset_incident_ai.Value.{get, keys}
use eset_incident_ai.Externals.{str}
use eset_incident_ai.Exec.{pure, raise, call, catch, ◌>>=◌}
use eset_incident_ai.Domain.Severity.{meets_threshold}
use eset_incident_ai.Discord.Webhook.{send}
use eset_incident_ai.Persistence.Deliveries
use eset_incident_ai.Persistence.Deliveries.{
  is_delivered, was_delivered, insert_delivery, mark_delivered,
}
use eset_incident_ai.Persistence.Runs.Detections
use eset_incident_ai.UseCases.Ports.{build_idempotency_key, safe_error_message, analyze_incident}
use eset_incident_ai.UseCases.Detections.{
  cutoff_of, detection_id, idempotency_key, parse_occur_time, is_stale, analyze_with,
  analyze_detection, notify_detection, visit, process_page, advance, collect_pages, execute_run,
  record_failure, execute,
}

unfoldable pub collector_code : Unit {0}
unfolding add_key add_keys get keys str pure raise call catch ◌>>=◌ meets_threshold send
    Deliveries.ensure_table is_delivered was_delivered insert_delivery mark_delivered
    Detections.latest Detections.save_cursor Detections.save_failure Detections.save_success
    build_idempotency_key safe_error_message analyze_incident cutoff_of detection_id idempotency_key
    parse_occur_time is_stale analyze_with analyze_detection notify_detection visit process_page
    advance collect_pages execute_run record_failure execute
collector_code = tt
