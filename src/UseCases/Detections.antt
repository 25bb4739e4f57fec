-- ===== src/UseCases/Detections.antt =====
-- src/eset_incident_ai/application/use_cases/collect_and_notify_detections.py: one run of the
-- detection collector. The theorems are in the modules below.
pub mod Rules
pub mod Safety
pub mod Cursor
pub mod Failures
pub mod Calm
pub mod Returns
pub mod Starvation
pub mod Muted
use eset_incident_ai.Prelude.{
  ℕ, zero, suc, ◌+◌, ◌-◌, ◌*◌, String, Bool, true, false, not, Option, none, some, List, [], ◌∷◌,
  ltb, leb, add_keys, if◌then◌else◌,
}
use eset_incident_ai.Value.{
  Value, Fields, text, array, field, no_fields, get, keys, truthy, or_else, is_container, Elements,
  no_elements, element,
}
use eset_incident_ai.Externals.{Externals, str, str_or}
use eset_incident_ai.World.{Error, other}
use eset_incident_ai.Exec.{Exec, pure, raise, catch, query, ◌>>=◌, ◌>>◌}
use eset_incident_ai.Results.{CollectionResult}
use eset_incident_ai.Domain.Severity.{Severity, meets_threshold}
use eset_incident_ai.Domain.Incident.{Incident}
use eset_incident_ai.Domain.Analysis.{IncidentAnalysisResult}
use eset_incident_ai.Discord.Webhook.{Notifier, send}
use eset_incident_ai.Persistence.Deliveries.{was_delivered, mark_delivered}
use eset_incident_ai.Persistence.Runs.Detections.{
  latest, token_of, save_cursor, save_success, save_failure,
}
use eset_incident_ai.UseCases.Ports.{
  NotificationBuilder, Analyzer, analyze_incident, build_idempotency_key, safe_error_message,
}

-- `DetectionPage`.
pub record DetectionPage : Type 0 where
  pub detections : List Fields
  pub next_page_token : Option String

-- The collaborators and settings of `CollectAndNotifyDetections`. The detection source answers from
-- one state of the feed during a run; `now` is the time at which the run starts, in microseconds.
pub record Collector : Type 0 where
  pub get_detection_page : Option String → ℕ → DetectionPage
  pub notification_builder : NotificationBuilder
  pub notifier : Notifier
  pub analyzer : Option Analyzer
  pub destination : String
  pub now : ℕ
  pub min_severity : Severity

-- The arguments of `execute`.
pub record Request : Type 0 where
  pub limit : ℕ
  pub page_size : ℕ
  pub max_pages_per_run : ℕ
  pub backfill_window_days : ℕ

-- The local variables of `_execute` that the loops change.
pub record Progress : Type 0 where
  pub collected_count : ℕ
  pub notified_count : ℕ
  pub duplicate_skipped_count : ℕ
  pub pending_approval_count : ℕ
  pub skipped_count : ℕ
  pub processed_count : ℕ
  pub pages_fetched : ℕ
  pub observed_keys : List String
  pub current_page_token : Option String
  pub last_persistable_page_token : Option String

abbrev pub start : Option String → Progress
start token = record {
  collected_count = 0;
  notified_count = 0;
  duplicate_skipped_count = 0;
  pending_approval_count = 0;
  skipped_count = 0;
  processed_count = 0;
  pages_fetched = 0;
  observed_keys = [];
  current_page_token = token;
  last_persistable_page_token = token;
}

abbrev pub microseconds_per_day : ℕ
microseconds_per_day = 86_400_000_000

-- `datetime - timedelta`: before year 1 it raises `OverflowError`.
unfoldable pub cutoff_of : ℕ → ℕ → Exec ℕ
cutoff_of now days =
    if ltb now (days * microseconds_per_day)
    then raise (record { class = other "OverflowError"; message = "date value out of range" })
    else pure (now - days * microseconds_per_day)

-- A list of texts as a JSON array.
abbrev key_items : List String → Elements
key_items [] = no_elements
key_items (k ∷ ks) = element (text k) (key_items ks)

-- `occurred_at is not None and occurred_at < cutoff`.
abbrev is_before : ℕ → Option ℕ → Bool
is_before cutoff none = false
is_before cutoff (some t) = ltb t cutoff

module _ (x : Externals) where
  -- `str(detection.get("uuid") or detection.get("displayName") or "unknown")`.
  unfoldable pub detection_id : Fields → String
  detection_id d = str x (or_else (get "uuid" d) (or_else (get "displayName" d) (text "unknown")))

  unfoldable pub idempotency_key : String → Fields → String
  idempotency_key destination d =
      build_idempotency_key x (detection_id d) (str_or x (get "occurTime" d) (text "unknown"))
        destination

  unfoldable pub parse_occur_time : Value → Option ℕ
  parse_occur_time v = if truthy v then x.from_iso (str x v) else none

  unfoldable pub is_stale : ℕ → Fields → Bool
  is_stale cutoff d = is_before cutoff (parse_occur_time (get "occurTime" d))

  unfoldable pub stringify_context : Value → String
  stringify_context v = if is_container v then x.dumps v else str x v

  unfoldable pub to_analysis_incident : Fields → Severity → Incident
  to_analysis_incident d severity = record {
    id = detection_id d;
    external_id = detection_id d;
    title = str_or x (get "displayName" d) (text (detection_id d));
    severity = severity;
    detected_at = none;
    summary = some (stringify_context (get "context" d));
    normalized_payload =
        field "source" (text "eset_detection")
          (field "raw_keys" (array (key_items (add_keys (keys d) []))) no_fields);
    detections = [];
  }

  -- An analysis that fails is left out: the message is sent without it.
  unfoldable pub analyze_with :
      Option Analyzer → Fields → Severity → Exec (Option IncidentAnalysisResult)
  analyze_with none d severity = pure none
  analyze_with (some a) d severity =
      catch
        (do
          analysis ← analyze_incident a (to_analysis_incident d severity) "default"
          pure (some analysis))
        (λ _. pure none)

module _ (x : Externals) (c : Collector) where
  unfoldable pub analyze_detection : Fields → Severity → Exec (Option IncidentAnalysisResult)
  analyze_detection d severity = analyze_with x c.analyzer d severity

  -- The body of the inner loop from `severity = …` on.
  unfoldable pub notify_detection : Fields → Progress → Exec Progress
  notify_detection d p = do
    let severity = c.notification_builder.severity d
    if not (meets_threshold severity c.min_severity)
        then pure (record p { skipped_count = p.skipped_count + 1 })
        else do
          let key = idempotency_key x c.destination d
          seen ← was_delivered key
          if seen
              then pure (record p { duplicate_skipped_count = p.duplicate_skipped_count + 1 })
              else do
                analysis ← analyze_detection d severity
                send c.notifier (c.notification_builder.build d analysis)
                mark_delivered key c.destination
                pure (record p { notified_count = p.notified_count + 1 })

  -- The first two statements of the inner loop.
  abbrev pub observe : Fields → Progress → Progress
  observe d p = record p {
    collected_count = p.collected_count + 1;
    observed_keys = add_keys (keys d) p.observed_keys;
  }

  -- One round of the inner loop, and whether the loop goes on.
  unfoldable pub visit : ℕ → ℕ → Fields → Progress → Exec (Progress × Bool)
  visit limit cutoff d p =
      if is_stale x cutoff d
      then pure (record (observe d p) { skipped_count = p.skipped_count + 1 }, true)
      else if leb limit p.processed_count
      then pure (observe d p, false)
      else do
        p' ← notify_detection d (record (observe d p) { processed_count = p.processed_count + 1 })
        pure (p', true)

  -- `for detection in page.detections`, and `page_completed`.
  unfoldable pub process_page : ℕ → ℕ → List Fields → Progress → Exec (Progress × Bool)
  process_page limit cutoff [] p = pure (p, true)
  process_page limit cutoff (d ∷ ds) p = do
    (p', more) ← visit limit cutoff d p
    if more then process_page limit cutoff ds p' else pure (p', false)

  -- What follows the inner loop: the cursor, and whether the outer loop goes on.
  unfoldable pub advance : ℕ → Bool → Option String → Progress → Exec (Progress × Bool)
  advance limit completed none p = pure (p, false)
  advance limit false (some token) p = pure (p, false)
  advance limit true (some token) p = do
    let p' = record p { current_page_token = some token; last_persistable_page_token = some token }
    save_cursor (some token)
    pure (p', not (leb limit p.processed_count))

  -- `while pages_fetched < max(max_pages_per_run, 0)`: the first argument is the number of pages
  -- that may still be fetched.
  unfoldable pub collect_pages : ℕ → Request → ℕ → Progress → Exec Progress
  collect_pages zero r cutoff p = pure p
  collect_pages (suc remaining) r cutoff p = do
    page ← query (λ w. c.get_detection_page p.current_page_token r.page_size)
    (p1, completed) ←
        process_page r.limit cutoff page.detections
          (record p { pages_fetched = p.pages_fetched + 1 })
    (p2, more) ← advance r.limit completed page.next_page_token p1
    if more then collect_pages remaining r cutoff p2 else pure p2

  abbrev pub report : Progress → CollectionResult
  report p = record {
    collected_count = p.collected_count;
    notified_count = p.notified_count;
    duplicate_skipped_count = p.duplicate_skipped_count;
    pending_approval_count = p.pending_approval_count;
    skipped_count = p.skipped_count;
    observed_keys = p.observed_keys;
  }

  -- `_execute`.
  unfoldable pub execute_run : Request → Exec CollectionResult
  execute_run r = do
    latest_run ← latest
    cutoff ← cutoff_of c.now r.backfill_window_days
    p ← collect_pages r.max_pages_per_run r cutoff (start (token_of latest_run))
    save_success (report p) p.last_persistable_page_token
    pure (report p)

  -- `with suppress(Exception): await save_failure(…)`, then `raise`.
  unfoldable pub record_failure {ℓ} : {A : Type ℓ} → Error → Exec A
  record_failure e = do catch (save_failure (safe_error_message e)) (λ _. pure tt); raise e

  unfoldable pub execute : Request → Exec CollectionResult
  execute r = catch (execute_run r) record_failure
