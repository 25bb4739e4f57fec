-- ===== src/UseCases/Review.antt =====
-- src/eset_incident_ai/application/use_cases/review_pending_approval.py and
-- review_pending_detection_approval.py: the two reviews run the same steps, each on its own table
-- and with its own key. The theorems are in the modules below.
pub mod Outcomes
pub mod Safety
use eset_incident_ai.Prelude.{ℕ, String, Bool, true, false, Option, none, some, List, if◌then◌else◌}
use eset_incident_ai.Value.{Fields, text, get, or_else}
use eset_incident_ai.Externals.{Externals, str, str_or}
use eset_incident_ai.World.{World, Error, domain_error, Approval, ReviewStatus, approved, rejected}
use eset_incident_ai.Exec.{Exec, pure, raise, ◌>>=◌, ◌>>◌}
use eset_incident_ai.Discord.Webhook.{Notifier, send}
use eset_incident_ai.Persistence.Deliveries.{was_delivered, mark_delivered}
use eset_incident_ai.Persistence.Approvals.{
  Desk, incidents, detections, get_pending, list_pending, mark_reviewed,
}
use eset_incident_ai.UseCases.Ports.{NotificationBuilder, build_idempotency_key}

-- `ApprovalReviewResult`, `DetectionApprovalReviewResult`.
pub record ReviewResult : Type 0 where
  pub approval_id : ℕ
  pub subject_id : String
  pub status : ReviewStatus
  pub notification_sent : Bool
  pub duplicate_skipped : Bool

-- The collaborators of one of the two use cases.
pub record Reviewer : Type 0 where
  pub desk : Desk
  pub notification_builder : NotificationBuilder
  pub notifier : Notifier
  pub destination : String

abbrev pub not_found : Desk → Error
not_found incidents = record { class = domain_error; message = "Pending approval was not found." }
not_found detections = record {
  class = domain_error;
  message = "Pending detection approval was not found.";
}

module _ (x : Externals) where
  -- `_idempotency_key`, of an incident and of a detection.
  unfoldable pub review_key : Desk → String → Fields → String
  review_key incidents destination i =
      build_idempotency_key x
        (str x (or_else (get "uuid" i) (or_else (get "displayName" i) (text "unknown"))))
        (str x (or_else (get "updateTime" i) (or_else (get "createTime" i) (text "unknown"))))
        destination
  review_key detections destination d =
      build_idempotency_key x
        (str x (or_else (get "uuid" d) (or_else (get "displayName" d) (text "unknown"))))
        (str_or x (get "occurTime" d) (text "unknown")) destination

abbrev pub review_result : Approval → ReviewStatus → Bool → Bool → ReviewResult
review_result a status notification_sent duplicate_skipped = record {
  approval_id = a.approval_id;
  subject_id = a.subject_id;
  status = status;
  notification_sent = notification_sent;
  duplicate_skipped = duplicate_skipped;
}

-- `list_pending_approvals.py`, `list_pending_detection_approvals.py`.
unfoldable pub list_approvals : Desk → ℕ → Exec (List Approval)
list_approvals desk limit = list_pending desk limit

module _ (x : Externals) (r : Reviewer) (approval_id : ℕ) where
  -- `approve` from the computation of the key on.
  unfoldable pub approve_open : Approval → Exec ReviewResult
  approve_open a = do
    let key = review_key x r.desk r.destination a.payload
    seen ← was_delivered key
    if seen
        then (do
          mark_reviewed r.desk approval_id approved
          pure (review_result a approved false true))
        else do
          send r.notifier (r.notification_builder.build a.payload none)
          mark_delivered key r.destination
          mark_reviewed r.desk approval_id approved
          pure (review_result a approved true false)

  unfoldable pub reject_open : Approval → Exec ReviewResult
  reject_open a = do
    mark_reviewed r.desk approval_id rejected
    pure (review_result a rejected false false)

  -- `if approval is None: raise DomainError(…)`.
  unfoldable pub with_open : (Approval → Exec ReviewResult) → Option Approval → Exec ReviewResult
  with_open review none = raise (not_found r.desk)
  with_open review (some a) = review a

  unfoldable pub approve : Exec ReviewResult
  approve = do approval ← get_pending r.desk approval_id; with_open approve_open approval

  unfoldable pub reject : Exec ReviewResult
  reject = do approval ← get_pending r.desk approval_id; with_open reject_open approval
