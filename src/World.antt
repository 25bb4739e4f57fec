-- ===== src/World.antt =====
-- The state outside the process: the PostgreSQL tables, the messages that Discord has accepted, and
-- what the external calls are going to do.
use eset_incident_ai.Prelude.{ℕ, String, Option, List}
use eset_incident_ai.Value.{Fields}

-- The exceptions, by class (src/eset_incident_ai/domain/exceptions.py, and those that
-- infrastructure/eset/incident_client.py, infrastructure/eset/auth_client.py and
-- infrastructure/discord/webhook_client.py declare). `other` is any class of a library.
pub data ErrorClass : Type 0 where
  domain_error unsafe_notification approval_required : ErrorClass
  eset_authentication_error discord_delivery_error value_error : ErrorClass
  eset_api_error eset_temporary_api_error : Option ℕ → ErrorClass
  other : String → ErrorClass

pub record Error : Type 0 where
  pub class : ErrorClass
  pub message : String

-- What one external call does: it works, it fails with no effect, or it takes effect and its answer
-- is lost (a timeout after the statement was committed or the message was accepted).
pub data Fault : Type 0 where
  works : Fault
  fails fails_late : Error → Fault

-- A row of `notification_deliveries`; `delivery_status` is always 'delivered'.
pub record Delivery : Type 0 where
  pub idempotency_key : String
  pub destination : String

-- The `status` column of the approval tables.
pub data ReviewStatus : Type 0 where
  pending approved rejected : ReviewStatus

-- A row of `pending_approvals` or `pending_detection_approvals`: `subject_id` is the column
-- `incident_id` or `detection_id`.
pub record Approval : Type 0 where
  pub approval_id : ℕ
  pub subject_id : String
  pub severity : String
  pub title : String
  pub status : ReviewStatus
  pub payload : Fields

-- The `status` column of the run tables.
pub data RunStatus : Type 0 where
  succeeded running failed : RunStatus

-- A row of `collection_runs`.
pub record Run : Type 0 where
  pub run_id : ℕ
  pub status : RunStatus
  pub collected_count : ℕ
  pub notified_count : ℕ
  pub duplicate_skipped_count : ℕ
  pub pending_approval_count : ℕ
  pub skipped_count : ℕ
  pub observed_keys : List String
  pub error_message : Option String

-- A row of `detection_collection_runs`.
pub record DetectionRun : Type 0 where
  pub run : Run
  pub open run use *
  pub last_page_token : Option String

-- A table with a `BIGSERIAL` key. The rows stand in the order of the program's only `ORDER BY`:
-- newest `created_at` (runs) or newest `updated_at` (approvals) first.
pub record Table {ℓ} (A : Type ℓ) : Type ℓ where
  pub next_id : ℕ
  pub rows : List A

pub record World : Type 0 where
  pub faults : List Fault
  pub deliveries : List Delivery
  -- The payloads that the webhook has accepted, newest first.
  pub outbox : List Fields
  pub incident_approvals : Table Approval
  pub detection_approvals : Table Approval
  pub incident_runs : Table Run
  pub detection_runs : Table DetectionRun
