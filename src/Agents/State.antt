-- ===== src/Agents/State.antt =====
-- src/eset_incident_ai/agents/state.py: a `TypedDict` whose keys may all be missing (`none`). A
-- confidence is counted in ten-thousandths.
use eset_incident_ai.Prelude.{ℕ, String, Bool, Option, none, some, List}
use eset_incident_ai.Value.{Fields}
use eset_incident_ai.Domain.Severity.{Severity}

-- The values of `critique["unsupported_claim_count"]`. A negative integer counts as `int_count 0`,
-- since the code only asks whether it is above 0.
pub data ClaimCount : Type 0 where
  int_count : ℕ → ClaimCount
  not_int : ClaimCount

pub record Critique : Type 0 where
  pub unsupported_claim_count : Option ClaimCount
  pub passed : Option Bool

pub record SecurityReview : Type 0 where
  pub pass : Option Bool
  pub passed : Option Bool

pub data ApprovalStatus : Type 0 where
  not_required pending approved rejected : ApprovalStatus

pub record IncidentAgentState : Type 0 where
  pub workflow_run_id : Option String
  pub incident_id : Option String
  pub incident : Option Fields
  pub sanitized_incident : Option Fields
  pub risk_score : Option ℕ
  pub severity : Option Severity
  pub search_queries : Option (List String)
  pub retrieved_evidence : Option (List Fields)
  pub investigation : Option Fields
  pub root_cause : Option Fields
  pub remediation : Option Fields
  pub critique : Option Critique
  pub security_review : Option SecurityReview
  pub confidence : Option ℕ
  pub retry_count : Option ℕ
  pub requires_human_approval : Option Bool
  pub approval_status : Option ApprovalStatus
  pub notification_payload : Option Fields
  pub errors : Option (List String)

-- `state.get(key, default)`.
abbrev pub get_or {ℓ} : {A : Type ℓ} → A → Option A → A
get_or default none = default
get_or default (some a) = a

-- `state.setdefault(key, default)`.
abbrev pub set_default {ℓ} : {A : Type ℓ} → A → Option A → Option A
set_default default o = some (get_or default o)
