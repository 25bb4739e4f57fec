-- ===== src/Agents/Router.antt =====
-- src/eset_incident_ai/agents/router.py: which edge the graph takes.
use eset_incident_ai.Prelude.{Bool, true, false, Option, none, some, ltb, if◌then◌else◌}
use eset_incident_ai.Agents.State.{
  IncidentAgentState, Critique, SecurityReview, ClaimCount, int_count, not_int, ApprovalStatus,
  get_or,
}

pub data AfterCritique : Type 0 where
  retry_investigation security_review reject : AfterCritique

pub data AfterReview : Type 0 where
  approval compose reject : AfterReview

pub data AfterApproval : Type 0 where
  approved rejected pending : AfterApproval

-- `isinstance(unsupported, int) and unsupported > 0`, where a missing count is 0.
abbrev pub has_unsupported : Option Critique → Bool
has_unsupported none = false
has_unsupported (some c) = above (get_or (int_count 0) c.unsupported_claim_count)
  where
    above : ClaimCount → Bool
    above (int_count n) = ltb 0 n
    above not_int = false

unfoldable pub route_after_critique : IncidentAgentState → AfterCritique
route_after_critique s =
    if has_unsupported s.critique
    then (if ltb (get_or 0 s.retry_count) 2
        then AfterCritique.retry_investigation
        else AfterCritique.reject)
    else if ltb (get_or 0 s.confidence) 6500
    then AfterCritique.reject
    else AfterCritique.security_review

-- `review.get("pass") is False`.
abbrev pub is_failed : Option SecurityReview → Bool
is_failed none = false
is_failed (some r) = elim r.pass [ none ↦ false | some b ↦ (if b then false else true) ]

unfoldable pub route_after_security_review : IncidentAgentState → AfterReview
route_after_security_review s =
    if is_failed s.security_review
    then AfterReview.reject
    else if get_or false s.requires_human_approval
    then AfterReview.approval
    else AfterReview.compose

abbrev pub by_status : ApprovalStatus → AfterApproval
by_status ApprovalStatus.approved = AfterApproval.approved
by_status ApprovalStatus.rejected = AfterApproval.rejected
by_status ApprovalStatus.pending = AfterApproval.pending
by_status ApprovalStatus.not_required = AfterApproval.pending

unfoldable pub route_after_approval : IncidentAgentState → AfterApproval
route_after_approval s = by_status (get_or ApprovalStatus.pending s.approval_status)
