-- ===== src/UseCases/Incidents.antt =====
-- src/eset_incident_ai/application/use_cases/collect_and_notify_incidents.py: one run of the
-- incident collector. The theorems are in the modules below.
pub mod Safety
use eset_incident_ai.Prelude.{
  ℕ, ◌+◌, ◌-◌, max, String, Bool, true, false, not, Option, none, some, List, [], ◌∷◌, leb,
  add_keys, is_empty, if◌then◌else◌,
}
use eset_incident_ai.Value.{
  Value, Fields, Elements, no_elements, element, text, array, field, no_fields, get, keys, or_else,
}
use eset_incident_ai.Externals.{Externals, str, str_or}
use eset_incident_ai.World.{World, Error}
use eset_incident_ai.Exec.{Exec, pure, raise, catch, query, ◌>>=◌, ◌>>◌}
use eset_incident_ai.Results.{CollectionResult}
use eset_incident_ai.Domain.Severity.{Severity, meets_threshold}
use eset_incident_ai.Domain.Incident.{Incident}
use eset_incident_ai.Domain.Analysis.{IncidentAnalysisResult}
use eset_incident_ai.Discord.Webhook.{Notifier, send}
use eset_incident_ai.Persistence.Deliveries.{was_delivered, mark_delivered}
use eset_incident_ai.Persistence.Runs.Incidents.{save_success, save_failure}
use eset_incident_ai.UseCases.Ports.{
  NotificationBuilder, Analyzer, analyze_incident, build_idempotency_key, safe_error_message,
}

-- The collaborators and settings of `CollectAndNotifyIncidents`. The source hands over its incidents
-- page by page: each page is one external call, made when the loop gets there.
pub record Collector : Type 0 where
  pub iter_incidents : Option String → ℕ → List (List Fields)
  pub notification_builder : NotificationBuilder
  pub notifier : Notifier
  pub analyzer : Option Analyzer
  pub destination : String
  pub min_severity : Severity

-- The local variables of `_execute`.
pub record Progress : Type 0 where
  pub collected_count : ℕ
  pub notified_count : ℕ
  pub duplicate_skipped_count : ℕ
  pub pending_approval_count : ℕ
  pub observed_keys : List String

abbrev pub start : Progress
start = record {
  collected_count = 0;
  notified_count = 0;
  duplicate_skipped_count = 0;
  pending_approval_count = 0;
  observed_keys = [];
}

abbrev key_items : List String → Elements
key_items [] = no_elements
key_items (k ∷ ks) = element (text k) (key_items ks)

-- `text or None`.
abbrev none_if_empty : String → Option String
none_if_empty s = if is_empty s then none else some s

module _ (x : Externals) where
  -- `str(incident.get("uuid") or incident.get("displayName") or "unknown")`.
  unfoldable pub incident_id : Fields → String
  incident_id i = str x (or_else (get "uuid" i) (or_else (get "displayName" i) (text "unknown")))

  -- `str(incident.get("updateTime") or incident.get("createTime") or "unknown")`.
  unfoldable pub analysis_version : Fields → String
  analysis_version i =
      str x (or_else (get "updateTime" i) (or_else (get "createTime" i) (text "unknown")))

  unfoldable pub idempotency_key : String → Fields → String
  idempotency_key destination i =
      build_idempotency_key x (incident_id i) (analysis_version i) destination

  unfoldable pub to_domain_incident : Fields → Severity → Incident
  to_domain_incident i severity = record {
    id = incident_id i;
    external_id = incident_id i;
    title = str_or x (get "displayName" i) (text (incident_id i));
    severity = severity;
    detected_at = none;
    summary = none_if_empty (str_or x (get "description" i) (text ""));
    normalized_payload =
        field "source" (text "eset")
          (field "raw_keys" (array (key_items (add_keys (keys i) []))) no_fields);
    detections = [];
  }

  -- An analysis that fails is left out: the message is sent without it.
  unfoldable pub analyze_with :
      Option Analyzer → Fields → Severity → Exec (Option IncidentAnalysisResult)
  analyze_with none i severity = pure none
  analyze_with (some a) i severity =
      catch
        (do
          analysis ← analyze_incident a (to_domain_incident i severity) "default"
          pure (some analysis))
        (λ _. pure none)

module _ (x : Externals) (c : Collector) where
  -- The body of the loop from `severity = …` up to its last test.
  unfoldable pub notify_incident : Fields → Progress → Exec Progress
  notify_incident i p = do
    let severity = c.notification_builder.severity i
    if not (meets_threshold severity c.min_severity) then pure p else do
      let key = idempotency_key x c.destination i
      seen ← was_delivered key
      if seen
          then pure (record p { duplicate_skipped_count = p.duplicate_skipped_count + 1 })
          else do
            analysis ← analyze_with x c.analyzer i severity
            send c.notifier (c.notification_builder.build i analysis)
            mark_delivered key c.destination
            pure (record p { notified_count = p.notified_count + 1 })

  abbrev observe : Fields → Progress → Progress
  observe i p = record p {
    collected_count = p.collected_count + 1;
    observed_keys = add_keys (keys i) p.observed_keys;
  }

  -- One round, and whether the loop goes on: each of its three ends tests `collected_count >= limit`.
  unfoldable pub visit : ℕ → Fields → Progress → Exec (Progress × Bool)
  visit limit i p = do
    p' ← notify_incident i (observe i p)
    pure (p', not (leb limit p'.collected_count))

  unfoldable pub process_page : ℕ → List Fields → Progress → Exec (Progress × Bool)
  process_page limit [] p = pure (p, true)
  process_page limit (i ∷ is) p = do
    (p', more) ← visit limit i p
    if more then process_page limit is p' else pure (p', false)

  -- `async for incident in iter_incidents(…)`.
  unfoldable pub collect_pages : ℕ → List (List Fields) → Progress → Exec Progress
  collect_pages limit [] p = pure p
  collect_pages limit (page ∷ pages) p = do
    incidents ← query (λ w. page)
    (p', more) ← process_page limit incidents p
    if more then collect_pages limit pages p' else pure p'

  -- In the source's order of subtractions; `-` stops at 0, as `max(…, 0)` does.
  abbrev pub report : Progress → CollectionResult
  report p = record {
    collected_count = p.collected_count;
    notified_count = p.notified_count;
    duplicate_skipped_count = p.duplicate_skipped_count;
    pending_approval_count = p.pending_approval_count;
    skipped_count =
        p.collected_count - p.notified_count - p.pending_approval_count - p.duplicate_skipped_count;
    observed_keys = p.observed_keys;
  }

  -- `_execute`.
  unfoldable pub execute_run : ℕ → Option String → Exec CollectionResult
  execute_run limit updated_after = do
    p ← collect_pages limit (c.iter_incidents updated_after (max limit 1)) start
    save_success (report p)
    pure (report p)

  -- `with suppress(Exception): await save_failure(…)`, then `raise`.
  unfoldable pub record_failure {ℓ} : {A : Type ℓ} → Error → Exec A
  record_failure e = do catch (save_failure (safe_error_message e)) (λ _. pure tt); raise e

  unfoldable pub execute : ℕ → Option String → Exec CollectionResult
  execute limit updated_after = catch (execute_run limit updated_after) record_failure
