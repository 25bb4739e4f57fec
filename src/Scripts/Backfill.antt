-- ===== src/Scripts/Backfill.antt =====
-- scripts/backfill_pending_detection_approvals.py: the pending approvals of detections are analysed,
-- sent, and marked as approved. The theorems are in the modules below.
pub mod Safety
pub mod Drain
use eset_incident_ai.Prelude.{
  ℕ, String, Bool, true, false, not, Option, none, some, List, [], ◌∷◌, is_empty, add_keys,
  if◌then◌else◌,
}
use eset_incident_ai.Value.{
  Value, Fields, Elements, no_elements, element, text, array, field, no_fields, get, keys, or_else,
  is_container,
}
use eset_incident_ai.Externals.{Externals, str, str_or}
use eset_incident_ai.World.{Error, other, Approval, approved}
use eset_incident_ai.Exec.{Exec, pure, raise, catch, ◌>>=◌, ◌>>◌}
use eset_incident_ai.Settings.{Settings}
use eset_incident_ai.Domain.Severity.{Severity, parse}
use eset_incident_ai.Domain.Incident.{Incident}
use eset_incident_ai.Domain.Analysis.{IncidentAnalysisResult}
use eset_incident_ai.Discord.Webhook.{discord_webhook_client, send}
use eset_incident_ai.Persistence.Deliveries.{was_delivered, mark_delivered}
use eset_incident_ai.Persistence.Approvals.{detections, list_pending, mark_reviewed}
use eset_incident_ai.UseCases.Ports.{
  NotificationBuilder, Analyzer, analyze_incident, build_idempotency_key,
}

-- The collaborators that `run` builds, but for the two repositories and the webhook client.
pub record Tools : Type 0 where
  pub notification_builder : NotificationBuilder
  pub analyzer : Analyzer

-- `if not condition: raise SystemExit(message)`.
unfoldable pub require : Bool → String → Exec (Unit {0})
require true message = pure tt
require false message = raise (record { class = other "SystemExit"; message = message })

-- `_validate_settings`.
unfoldable pub validate_settings : Settings → Exec (Unit {0})
validate_settings s = do
  require s.discord_enabled "DISCORD_ENABLED is not true"
  require (not (is_empty s.discord_webhook_url)) "DISCORD_WEBHOOK_URL is empty"
  require (not (is_empty s.sanitizer_hmac_secret)) "SANITIZER_HMAC_SECRET is empty"

abbrev raw_key_items : List String → Elements
raw_key_items [] = no_elements
raw_key_items (k ∷ ks) = element (text k) (raw_key_items ks)

module _ (x : Externals) where
  -- `str(payload.get("uuid") or payload.get("displayName") or "unknown")`.
  abbrev pub payload_id : Fields → String
  payload_id p = str x (or_else (get "uuid" p) (or_else (get "displayName" p) (text "unknown")))

  -- `_idempotency_key`.
  unfoldable pub backfill_key : Fields → String
  backfill_key p =
      build_idempotency_key x (payload_id p) (str_or x (get "occurTime" p) (text "unknown"))
        "discord"

  -- `_stringify_context`.
  abbrev pub context_text : Value → String
  context_text v = if is_container v then x.dumps v else str x v

  unfoldable pub payload_to_analysis_incident : Fields → Severity → Incident
  payload_to_analysis_incident p severity = record {
    id = payload_id p;
    external_id = payload_id p;
    title = str_or x (get "displayName" p) (text (payload_id p));
    severity = severity;
    detected_at = none;
    summary = some (context_text (get "context" p));
    normalized_payload =
        field "source" (text "eset_detection")
          (field "raw_keys" (array (raw_key_items (add_keys (keys p) []))) no_fields);
    detections = [];
  }

  module _ (t : Tools) where
    -- `_analyze_approval`: an analysis that fails is left out.
    unfoldable pub analyze_approval : Approval → Severity → Exec (Option IncidentAnalysisResult)
    analyze_approval a severity =
        catch
          (do
            analysis ←
                analyze_incident t.analyzer (payload_to_analysis_incident a.payload severity)
                  "default"
            pure (some analysis))
          (λ _. pure none)

    -- The `try` of `_process_approval`, and whether it came to its end.
    unfoldable pub deliver : Approval → Option IncidentAnalysisResult → Exec Bool
    deliver a analysis =
        catch
          (do
            send discord_webhook_client (t.notification_builder.build a.payload analysis)
            mark_delivered (backfill_key a.payload) "discord"
            pure true)
          (λ _. pure false)

    -- `_process_approval`.
    unfoldable pub process_approval : Approval → Exec (Unit {0})
    process_approval a = do
      seen ← was_delivered (backfill_key a.payload)
      if seen then mark_reviewed detections a.approval_id approved else do
        analysis ← analyze_approval a (parse x (text a.severity))
        delivered ← deliver a analysis
        if delivered then mark_reviewed detections a.approval_id approved else pure tt

    unfoldable pub process_approvals : List Approval → Exec (Unit {0})
    process_approvals [] = pure tt
    process_approvals (a ∷ approvals) = do process_approval a; process_approvals approvals

    unfoldable pub run : Settings → ℕ → Bool → Exec (Unit {0})
    run s limit dry_run = do
      validate_settings s
      approvals ← list_pending detections limit
      if dry_run then pure tt else process_approvals approvals
