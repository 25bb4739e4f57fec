-- ===== src/Tests/Fixtures.antt =====
-- A small feed, and collaborators that can be followed by hand.
use eset_incident_ai.Prelude.{ℕ, String, Option, none, some, List, [], ◌∷◌, str_eq, if◌then◌else◌}
use eset_incident_ai.Value.{Value, Fields, text, field, no_fields, get}
use eset_incident_ai.Externals.{Externals}
use eset_incident_ai.World.{World, Fault}
use eset_incident_ai.Domain.Severity.{Severity, low, medium, high}
use eset_incident_ai.Discord.Webhook.{discord_webhook_client}
use eset_incident_ai.UseCases.Ports.{NotificationBuilder}
use eset_incident_ai.UseCases.Detections.{Collector, DetectionPage, Request}

-- Hashing is the identity, and two dates are known.
abbrev pub plain : Externals
plain = record {
  repr = λ v. "{}";
  dumps = λ v. "{}";
  sha256 = λ s. s;
  from_iso = λ s.
      if str_eq s "2026-01-01"
      then some 0
      else if str_eq s "2026-06-01"
      then some 900_000_000_000
      else none;
}

abbrev level : Value → Severity
level (text s) = if str_eq s "high" then high else low
level v = low

abbrev pub builder : NotificationBuilder
builder = record { severity = λ d. level (get "severityLevel" d); build = λ d analysis. d }

abbrev pub detection : String → String → String → Fields
detection uuid severity_level occur_time =
    field "uuid" (text uuid)
      (field "severityLevel" (text severity_level) (field "occurTime" (text occur_time) no_fields))

abbrev pub alert : String → Fields
alert uuid = detection uuid "high" "2026-06-01"

-- Two pages: the first ends with a detection that is too old and one that is below the threshold.
abbrev pages : Option String → DetectionPage
pages none = record {
  detections =
      alert "a"
      ∷ alert "b"
      ∷ detection "c" "high" "2026-01-01"
      ∷ detection "d" "low" "2026-06-01"
      ∷ [];
  next_page_token = some "p2";
}
pages (some t) = record { detections = alert "e" ∷ []; next_page_token = none }

abbrev pub collector : Collector
collector = record {
  get_detection_page = λ token size. pages token;
  notification_builder = builder;
  notifier = discord_webhook_client;
  analyzer = none;
  destination = "discord";
  now = 950_000_000_000;
  min_severity = medium;
}

abbrev pub request : ℕ → Request
request limit = record {
  limit = limit;
  page_size = 1000;
  max_pages_per_run = 1000;
  backfill_window_days = 1;
}

-- An empty database and an idle channel.
abbrev pub world : List Fault → World
world faults = record {
  faults = faults;
  deliveries = [];
  outbox = [];
  incident_approvals = record { next_id = 1; rows = [] };
  detection_approvals = record { next_id = 1; rows = [] };
  incident_runs = record { next_id = 1; rows = [] };
  detection_runs = record { next_id = 1; rows = [] };
}
