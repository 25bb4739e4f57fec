-- ===== src/Api/App.antt =====
-- src/eset_incident_ai/bootstrap.py: the routes that answer a GET without a query, by their path, and
-- the JSON of the answers (src/eset_incident_ai/application/dto). The `created_at` of a run is left out,
-- as its table has none here.
use eset_incident_ai.Prelude.{
  ℕ, String, Option, none, some, List, [], ◌∷◌, ◌==◌, str_eq, if◌then◌else◌,
}
use eset_incident_ai.Value.{
  Value, Fields, Elements, null, text, number, object, array, field, no_fields, element,
  no_elements,
}
use eset_incident_ai.World.{
  World, Approval, ReviewStatus, pending, approved, rejected, Run, DetectionRun, RunStatus,
  succeeded, running, failed,
}
use eset_incident_ai.Settings.{Settings}
use eset_incident_ai.Persistence.Approvals.{Desk, incidents, detections}
use eset_incident_ai.Api.Dependencies.{Platform}
use eset_incident_ai.Api.Responses.{Response, success, failure}
use eset_incident_ai.Api.Routes.{
  latest_incident_run_route, latest_detection_run_route, pending_route,
}
use eset_incident_ai.Api.Health.{dump, text_fields, health_route, ready_route}

abbrev review_status : ReviewStatus → String
review_status pending = "pending"
review_status approved = "approved"
review_status rejected = "rejected"

abbrev run_status : RunStatus → String
run_status succeeded = "succeeded"
run_status running = "running"
run_status failed = "failed"

abbrev or_null : Option String → Value
or_null none = null
or_null (some s) = text s

abbrev texts : List String → Elements
texts [] = no_elements
texts (s ∷ rest) = element (text s) (texts rest)

-- The name of the column, and of the field.
abbrev subject_name : Desk → String
subject_name incidents = "incident_id"
subject_name detections = "detection_id"

module _ (decimal : ℕ → String) where
  abbrev integer : ℕ → Value
  integer n = number (n == 0) (decimal n)

  -- `PendingApprovalDTO`, `PendingDetectionApprovalDTO`.
  abbrev pub approval_json : Desk → Approval → Value
  approval_json desk a = object (
      field "approval_id" (integer a.approval_id) (
        field (subject_name desk) (text a.subject_id) (
          field "severity" (text a.severity) (
            field "title" (text a.title) (
              field "status" (text (review_status a.status))
                (field "payload" (object a.payload) no_fields))))))

  abbrev pub approvals_json : Desk → List Approval → Elements
  approvals_json desk [] = no_elements
  approvals_json desk (a ∷ rest) = element (approval_json desk a) (approvals_json desk rest)

  -- `CollectionRunDTO`, before what `DetectionCollectionRunDTO` has more.
  abbrev run_fields : Run → Fields → Fields
  run_fields r more = field "run_id" (integer r.run_id) (
      field "status" (text (run_status r.status)) (
        field "collected_count" (integer r.collected_count) (
          field "notified_count" (integer r.notified_count) (
            field "duplicate_skipped_count" (integer r.duplicate_skipped_count) (
              field "pending_approval_count" (integer r.pending_approval_count) (
                field "skipped_count" (integer r.skipped_count) (
                  field "observed_keys" (array (texts r.observed_keys))
                    (field "error_message" (or_null r.error_message) more))))))))

  abbrev pub run_json : Run → Value
  run_json r = object (run_fields r no_fields)

  abbrev pub detection_run_json : DetectionRun → Value
  detection_run_json r =
      object (run_fields r.run (field "last_page_token" (or_null r.last_page_token) no_fields))

abbrev pub optional_json {ℓ} : {A : Type ℓ} → (A → Value) → Option A → Value
optional_json f none = null
optional_json f (some a) = f a

-- What is sent: the status, and the JSON body. A failure has its detail in an object.
abbrev pub rendered {ℓ} : {A : Type ℓ} → (A → Value) → Response A × World → (ℕ × Value) × World
rendered f (success a, w) = ((200, f a), w)
rendered f (failure status detail, w) = ((status, object (field "detail" detail no_fields)), w)

-- `create_app`, for a GET of one of these paths with no query: the default of `limit` is 50. Any other
-- path is taken as one without a route.
module _ (p : Platform) (s : Settings) where
  unfoldable pub app : String → World → (ℕ × Value) × World
  app path w =
      if str_eq path "/health"
      then rendered (λ checks. object (text_fields checks)) (health_route w)
      else if str_eq path "/ready"
      then rendered dump (ready_route w)
      else if str_eq path "/api/v1/incidents/collection-runs/latest"
      then rendered (optional_json (run_json p.decimal)) (latest_incident_run_route w)
      else if str_eq path "/api/v1/detections/collection-runs/latest"
      then rendered (optional_json (detection_run_json p.decimal)) (latest_detection_run_route w)
      else if str_eq path "/api/v1/approvals/pending"
      then rendered (λ rows. array (approvals_json p.decimal incidents rows))
          (pending_route p s incidents 50 w)
      else if str_eq path "/api/v1/detections/pending-approvals"
      then rendered (λ rows. array (approvals_json p.decimal detections rows))
          (pending_route p s detections 50 w)
      else ((404, object (field "detail" (text "Not Found") no_fields)), w)
