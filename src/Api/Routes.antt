-- ===== src/Api/Routes.antt =====
-- src/eset_incident_ai/api/routes: the routes of detections.py, incidents.py and approvals.py, and the
-- tasks of src/eset_incident_ai/infrastructure/queue/tasks.py. An integer of a request is a natural
-- number; a negative one is refused as a zero is.
pub mod Limits
pub mod Reviews
pub mod Knowledge
pub mod Analyses
use eset_incident_ai.Prelude.{
  ℕ, String, Bool, true, false, Option, none, some, List, ◌==◌, if◌then◌else◌,
}
use eset_incident_ai.World.{World, Approval, Run, DetectionRun}
use eset_incident_ai.Exec.{Outcome, ok, Exec}
use eset_incident_ai.Settings.{Settings}
use eset_incident_ai.Results.{CollectionResult}
use eset_incident_ai.Persistence.Approvals.{Desk, incidents, detections}
use eset_incident_ai.Persistence.Runs.Incidents as IncidentRuns
use eset_incident_ai.Persistence.Runs.Detections as DetectionRuns
use eset_incident_ai.UseCases.Detections as Detections
use eset_incident_ai.UseCases.Incidents as Incidents
use eset_incident_ai.UseCases.Review.{ReviewResult, Reviewer, list_approvals, approve, reject}
use eset_incident_ai.Api.Dependencies.{
  Platform, get_sanitizer, get_collect_and_notify_detections, get_collect_and_notify_incidents,
  get_review_pending_approval, get_review_pending_detection_approval,
}
use eset_incident_ai.Api.Responses.{Response, Route, serve, from_dependency, within}

-- `CollectDetectionsRequest.limit`.
abbrev pub limit_valid : Option ℕ → Bool
limit_valid none = true
limit_valid (some n) = within 1 10000 n

-- `request.limit or default`.
abbrev pub limit_or : Option ℕ → ℕ → ℕ
limit_or none default = default
limit_or (some n) default = if n == 0 then default else n

module _ (p : Platform) (s : Settings) where
  -- The arguments that the route and the task both take from the settings.
  abbrev pub detection_request : ℕ → Detections.Request
  detection_request limit = record {
    limit = limit;
    page_size = s.eset_detection_page_size;
    max_pages_per_run = s.detection_max_pages_per_run;
    backfill_window_days = s.detection_backfill_window_days;
  }

  -- `POST /detections/collect-and-notify`.
  unfoldable pub collect_detections_route : Option ℕ → Route CollectionResult
  collect_detections_route limit =
      serve (get_collect_and_notify_detections p s) (limit_valid limit) (λ c.
        Detections.execute p.externals c
          (detection_request (limit_or limit s.detection_notify_limit)))

  -- `POST /incidents/collect-and-notify`.
  unfoldable pub collect_incidents_route : ℕ → Option String → Route CollectionResult
  collect_incidents_route limit updated_after =
      serve (get_collect_and_notify_incidents p s) (within 1 100 limit)
        (λ c. Incidents.execute p.externals c limit updated_after)

  -- `GET …/pending-approvals` and `GET /approvals/pending`.
  unfoldable pub pending_route : Desk → ℕ → Route (List Approval)
  pending_route desk limit =
      serve (get_sanitizer p s) (within 1 200 limit) (λ _. list_approvals desk limit)

  abbrev pub get_reviewer : Desk → Outcome Reviewer
  get_reviewer incidents = get_review_pending_approval p s
  get_reviewer detections = get_review_pending_detection_approval p s

  -- `POST …/{approval_id}/approve` and `POST …/{approval_id}/reject`, of both routers.
  unfoldable pub approve_route : Desk → ℕ → Route ReviewResult
  approve_route desk approval_id =
      serve (get_reviewer desk) true (λ r. approve p.externals r approval_id)

  unfoldable pub reject_route : Desk → ℕ → Route ReviewResult
  reject_route desk approval_id =
      serve (get_reviewer desk) true (λ r. reject p.externals r approval_id)

  -- `collect_and_notify_detections_task`, `collect_and_notify_incidents_task`.
  unfoldable pub collect_detections_task : Exec CollectionResult
  collect_detections_task =
      from_dependency (get_collect_and_notify_detections p s)
        (λ c. Detections.execute p.externals c (detection_request s.detection_notify_limit))

  unfoldable pub collect_incidents_task : ℕ → Exec CollectionResult
  collect_incidents_task limit =
      from_dependency (get_collect_and_notify_incidents p s)
        (λ c. Incidents.execute p.externals c limit none)

-- `GET …/collection-runs` and `GET …/collection-runs/latest`.
unfoldable pub detection_runs_route : ℕ → Route (List DetectionRun)
detection_runs_route limit =
    serve (ok tt) (within 1 100 limit) (λ (u : Unit {0}). DetectionRuns.list_recent limit)

unfoldable pub latest_detection_run_route : Route (Option DetectionRun)
latest_detection_run_route = serve (ok tt) true (λ (u : Unit {0}). DetectionRuns.latest)

unfoldable pub incident_runs_route : ℕ → Route (List Run)
incident_runs_route limit =
    serve (ok tt) (within 1 100 limit) (λ (u : Unit {0}). IncidentRuns.list_recent limit)

unfoldable pub latest_incident_run_route : Route (Option Run)
latest_incident_run_route = serve (ok tt) true (λ (u : Unit {0}). IncidentRuns.latest)
