-- ===== src/Tests/Api.antt =====
-- Requests to the API: a collection without Discord, refused limits, and a review.
use eset_incident_ai.Prelude.{◌+◌, ◌≡◌, refl, true, false, some, none, List, [], ◌∷◌, length, arith}
use eset_incident_ai.World.{World, Approval, pending, Fault, works, fails, other}
use eset_incident_ai.Settings.{Settings, default_settings}
use eset_incident_ai.Results.{CollectionResult}
use eset_incident_ai.Persistence.Approvals.{incidents, select_open}
use eset_incident_ai.Persistence.Approvals.Rows.{IsValid}
use eset_incident_ai.Tests.Fixtures.{plain, collector, alert, world}
use eset_incident_ai.Api.Dependencies.{Platform}
use eset_incident_ai.Api.Routes.{collect_detections_route, approve_route, reject_route}
use eset_incident_ai.Api.Routes.Limits.{Answered, collect_detections_route-mutes}
use eset_incident_ai.Value.{no_fields}
use eset_incident_ai.Domain.Severity.{high}
use eset_incident_ai.Domain.Analysis.{AnalysisIsValid}
use eset_incident_ai.Llm.LocalGateway.{analyze}
use eset_incident_ai.UseCases.Normalize.{IncidentDto, to_domain}
use eset_incident_ai.Api.Routes.Knowledge.{Search, run_analysis_route}
use eset_incident_ai.Api.Routes.Analyses.{SameTables, run_analysis_route-answers}
use eset_incident_ai.Api.Routes.Reviews.{ClosedBy, routes-review_once}

abbrev pub platform : Platform
platform = record {
  externals = plain;
  hmac_sha256 = λ secret v. "0a1b2c3d4e";
  is_word = λ c. false;
  decimal = λ n. "0";
  get_detection_page = collector.get_detection_page;
  iter_incidents = λ after size. [];
  now = 950_000_000_000;
}

abbrev pub settings : Settings
settings = record default_settings {
  sanitizer_hmac_secret = "k";
  detection_backfill_window_days = 1;
}

-- The statement that marks the second detection fails.
abbrev closing : List Fault
closing =
    works
    ∷ works
    ∷ works
    ∷ works
    ∷ works
    ∷ works
    ∷ works
    ∷ works
    ∷ works
    ∷ fails (record { class = other "OperationalError"; message = "closed" })
    ∷ []

collect_detections_route-mutes_example :
    Answered
      (λ (res : CollectionResult) w'.
        (length w'.deliveries ≡ 0 + res.notified_count) × (w'.outbox ≡ []))
      (λ w'. w'.outbox ≡ [])
      (collect_detections_route platform settings none (world [])).0
      (collect_detections_route platform settings none (world [])).1
collect_detections_route-mutes_example =
    collect_detections_route-mutes platform settings none (world []) tt refl refl

abbrev enabled : Settings
enabled = record settings {
  discord_enabled = true;
  discord_webhook_url = "https://discord.example/hook";
}

abbrev waiting : Approval
waiting = record {
  approval_id = 7;
  subject_id = "a";
  severity = "high";
  title = "Malware";
  status = pending;
  payload = alert "a";
}

abbrev desk_world : World
desk_world = record (world []) { incident_approvals = record { next_id = 8; rows = waiting ∷ [] } }

is_waiting : select_open 7 (waiting ∷ []) ≡ some waiting
unfolding select_open
is_waiting = refl

desk-IsValid : IsValid (record { next_id = 8; rows = waiting ∷ [] })
desk-IsValid = record { distinct = (tt, tt); used = (omega arith, tt) }

routes-review_once_example :
    ClosedBy platform enabled 7 incidents (approve_route platform enabled incidents 7) desk_world
    × ClosedBy platform enabled 7 incidents (reject_route platform enabled incidents 7) desk_world
routes-review_once_example =
    routes-review_once platform enabled incidents 7 waiting desk_world refl refl refl desk-IsValid
      is_waiting

abbrev found : Search
found text tenant limit = []

abbrev asked : IncidentDto
asked = record {
  external_id = "i-1";
  title = "Malware";
  severity = high;
  detected_at = none;
  summary = none;
  normalized_payload = no_fields;
}

run_analysis_route-answers_example :
    Answered
      (λ a w'.
        (a ≡ analyze platform.decimal (to_domain asked) [])
        × AnalysisIsValid a
        × SameTables (world closing) w')
      (SameTables (world closing))
      (run_analysis_route platform.decimal found asked "default" (world closing)).0
      (run_analysis_route platform.decimal found asked "default" (world closing)).1
run_analysis_route-answers_example =
    run_analysis_route-answers platform.decimal found asked "default" (world closing) refl
