-- ===== src/Api/Dependencies.antt =====
-- src/eset_incident_ai/api/dependencies.py: the use cases with their collaborators, built from the
-- settings. A constructor that raises makes the function that calls it raise.
use eset_incident_ai.Prelude.{ℕ, String, Option, none, List, if◌then◌else◌}
use eset_incident_ai.Value.{Fields, text}
use eset_incident_ai.Externals.{Externals}
use eset_incident_ai.Exec.{Outcome, ok, err}
use eset_incident_ai.Settings.{Settings}
use eset_incident_ai.Regex.{CharClass}
use eset_incident_ai.Domain.Severity.{Severity, parse}
use eset_incident_ai.Discord.Webhook.{Notifier, discord_webhook_client, disabled_notifier}
use eset_incident_ai.Discord.Builders.{incident_builder, detection_builder}
use eset_incident_ai.Security.Sanitizer.{Sanitizer, sanitizer}
use eset_incident_ai.Persistence.Approvals.{incidents, detections}
use eset_incident_ai.UseCases.Detections as Detections
use eset_incident_ai.UseCases.Incidents as Incidents
use eset_incident_ai.UseCases.Review.{Reviewer}

-- What the collaborators call: the libraries, the two ESET clients and the clock.
pub record Platform : Type 0 where
  pub externals : Externals
  pub hmac_sha256 : String → String → String
  pub is_word : CharClass
  pub decimal : ℕ → String
  pub get_detection_page : Option String → ℕ → Detections.DetectionPage
  pub iter_incidents : Option String → ℕ → List (List Fields)
  pub now : ℕ

-- `DiscordWebhookClient(…) if settings.discord_enabled else DisabledNotifier()`.
abbrev pub get_notifier : Settings → Notifier
get_notifier s = if s.discord_enabled then discord_webhook_client else disabled_notifier

abbrev pub built {ℓ κ} : {A : Type ℓ} {B : Type κ} → (A → B) → Outcome A → Outcome B
built f (ok a) = ok (f a)
built f (err e) = err e

module _ (p : Platform) (s : Settings) where
  abbrev pub get_sanitizer : Outcome Sanitizer
  get_sanitizer = sanitizer s.sanitizer_hmac_secret p.hmac_sha256 p.is_word

  -- `Severity.parse(settings.min_notify_severity)`.
  abbrev pub min_severity : Severity
  min_severity = parse p.externals (text s.min_notify_severity)

  abbrev pub detection_collector : Sanitizer → Detections.Collector
  detection_collector z = record {
    get_detection_page = p.get_detection_page;
    notification_builder = detection_builder p.externals z p.decimal;
    notifier = get_notifier s;
    analyzer = none;
    destination = "discord";
    now = p.now;
    min_severity = min_severity;
  }

  unfoldable pub get_collect_and_notify_detections : Outcome Detections.Collector
  get_collect_and_notify_detections = built detection_collector get_sanitizer

  abbrev pub incident_collector : Sanitizer → Incidents.Collector
  incident_collector z = record {
    iter_incidents = p.iter_incidents;
    notification_builder = incident_builder p.externals z p.decimal;
    notifier = get_notifier s;
    analyzer = none;
    destination = "discord";
    min_severity = min_severity;
  }

  unfoldable pub get_collect_and_notify_incidents : Outcome Incidents.Collector
  get_collect_and_notify_incidents = built incident_collector get_sanitizer

  abbrev pub incident_reviewer : Sanitizer → Reviewer
  incident_reviewer z = record {
    desk = incidents;
    notification_builder = incident_builder p.externals z p.decimal;
    notifier = get_notifier s;
    destination = "discord";
  }

  unfoldable pub get_review_pending_approval : Outcome Reviewer
  get_review_pending_approval = built incident_reviewer get_sanitizer

  abbrev pub detection_reviewer : Sanitizer → Reviewer
  detection_reviewer z = record {
    desk = detections;
    notification_builder = detection_builder p.externals z p.decimal;
    notifier = get_notifier s;
    destination = "discord";
  }

  unfoldable pub get_review_pending_detection_approval : Outcome Reviewer
  get_review_pending_detection_approval = built detection_reviewer get_sanitizer
