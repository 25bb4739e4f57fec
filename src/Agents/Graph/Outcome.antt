-- ===== src/Agents/Graph/Outcome.antt =====
-- How a run of the graph ends.
mod Paths
pub use Paths.*
use eset_incident_ai.Prelude.{
  ℕ, suc, ◌≡◌, refl, true, false, not, ◌&&◌, ◌||◌, inl, inr, Option, none, some, List, [], ◌∷◌, ltb,
  any, Bool-cases,
}
use eset_incident_ai.Agents.State.{IncidentAgentState, ApprovalStatus, get_or}
use eset_incident_ai.Agents.Nodes.{
  intake_node, retrieve_node, investigate_node, root_cause_node, remediation_node, critique_node,
  security_review_node, approval_node, reject_node, compose_notification_node, notify_node,
}
use eset_incident_ai.Agents.Router.{
  route_after_critique, route_after_security_review, route_after_approval,
}
use eset_incident_ai.Agents.Graph.{Node, run_node, next_node, run_from, invoke}

invoke-unsure : (s : IncidentAgentState) → too_unsure s ≡ true → Ends s
invoke-unsure s e = (
  before_fork (Node.reject ∷ []),
  run_node Node.reject (criticised s),
  to_fork s Node.reject (fork-unsure s e) (from_reject 18 _),
  rw e,
  λ h. rejected _,
)

invoke-free :
    (s : IncidentAgentState)
    → too_unsure s ≡ false
    → get_or false s.requires_human_approval ≡ false
    → Ends s
invoke-free s e f = (
  before_fork (Node.security_review ∷ Node.compose ∷ Node.notify ∷ []),
  run_node Node.notify (run_node Node.compose (secured s)),
  to_fork s Node.security_review (fork-sure s e)
      (goes 18 Node.security_review Node.compose _ (review-free s f) (from_compose 16 _)),
  rw (e, f),
  λ h. absurd (cc (h, e)),
)

module _ (s : IncidentAgentState) (e : too_unsure s ≡ false)
    (f : get_or false s.requires_human_approval ≡ true) where
  to_approval :
      {trace : List Node} {s' : IncidentAgentState}
      → Runs 18 Node.approval (secured s) trace s'
      → invoke s ≡ some (before_fork (Node.security_review ∷ trace), s')
  to_approval r =
      to_fork s Node.security_review (fork-sure s e)
        (goes 18 Node.security_review Node.approval _ (review-held s f) r)

  unsettled :
      (o : Option ApprovalStatus)
      → s.approval_status ≡ o
      → is_approved o ≡ false
      → next_node Node.approval (held s) ≡ none
      → Ends s
  unsettled o k a n = (
    before_fork (Node.security_review ∷ Node.approval ∷ []),
    held s,
    to_approval (ends 17 Node.approval _ n),
    rw (e, f, k, a),
    λ h. absurd (cc (h, e)),
  )

  -- With approval required, the status decides.
  invoke-held : (o : Option ApprovalStatus) → s.approval_status ≡ o → Ends s
  unfolding node_code
  invoke-held (some ApprovalStatus.approved) k = (
    before_fork (Node.security_review ∷ Node.approval ∷ Node.compose ∷ Node.notify ∷ []),
    run_node Node.notify (run_node Node.compose (held s)),
    to_approval (goes 17 Node.approval Node.compose _ (rw k refl) (from_compose 15 _)),
    rw (e, f, k),
    λ h. absurd (cc (h, e)),
  )
  invoke-held (some ApprovalStatus.rejected) k = (
    before_fork (Node.security_review ∷ Node.approval ∷ Node.reject ∷ []),
    run_node Node.reject (held s),
    to_approval (goes 17 Node.approval Node.reject _ (rw k refl) (from_reject 16 _)),
    rw (e, f, k),
    λ h. rejected (held s),
  )
  invoke-held (some ApprovalStatus.pending) k = unsettled _ k refl (rw k refl)
  invoke-held (some ApprovalStatus.not_required) k = unsettled _ k refl (rw k refl)
  invoke-held none k = unsettled _ k refl (rw k refl)

-- A run of the graph ends within the limit of 25 steps, from every state. It reaches the node
-- `notify` exactly if the confidence is at least 0.65 and either no human approval is required or the
-- status is already approved. A run whose confidence is missing or below 0.65 ends with the status
-- rejected.
pub invoke-Ends : (s : IncidentAgentState) → Ends s
invoke-Ends s = elim (Bool-cases (too_unsure s)) [
  | inl e ↦ invoke-unsure s e
  | inr e ↦ elim (Bool-cases (get_or false s.requires_human_approval)) [
    | inl f ↦ invoke-held s e f s.approval_status refl
    | inr f ↦ invoke-free s e f
  ]
]
