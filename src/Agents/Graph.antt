-- ===== src/Agents/Graph.antt =====
-- src/eset_incident_ai/agents/graph.py: the compiled graph. LangGraph runs one node after another
-- along the edges, and stops with an error after `recursion_limit` steps (25 by default).
pub mod Outcome
use eset_incident_ai.Prelude.{ℕ, zero, suc, Bool, true, false, Option, none, some, List, [], ◌∷◌}
use eset_incident_ai.Agents.State.{IncidentAgentState}
use eset_incident_ai.Agents.Nodes.{
  intake_node, retrieve_node, investigate_node, root_cause_node, remediation_node, critique_node,
  security_review_node, approval_node, reject_node, compose_notification_node, notify_node,
}
use eset_incident_ai.Agents.Router.{
  AfterCritique, AfterReview, AfterApproval, route_after_critique, route_after_security_review,
  route_after_approval,
}

pub data Node : Type 0 where
  intake retrieve investigate root_cause remediation critique security_review approval : Node
  compose notify reject : Node

-- `add_node`.
unfoldable pub run_node : Node → IncidentAgentState → IncidentAgentState
run_node intake s = intake_node s
run_node retrieve s = retrieve_node s
run_node investigate s = investigate_node s
run_node root_cause s = root_cause_node s
run_node remediation s = remediation_node s
run_node critique s = critique_node s
run_node security_review s = security_review_node s
run_node approval s = approval_node s
run_node compose s = compose_notification_node s
run_node notify s = notify_node s
run_node reject s = reject_node s

abbrev after_critique : AfterCritique → Node
after_critique AfterCritique.retry_investigation = investigate
after_critique AfterCritique.security_review = security_review
after_critique AfterCritique.reject = reject

abbrev after_review : AfterReview → Node
after_review AfterReview.approval = approval
after_review AfterReview.compose = compose
after_review AfterReview.reject = reject

abbrev after_approval : AfterApproval → Option Node
after_approval AfterApproval.approved = some compose
after_approval AfterApproval.rejected = some reject
after_approval AfterApproval.pending = none

-- `add_edge` and `add_conditional_edges`; `none` is `END`.
unfoldable pub next_node : Node → IncidentAgentState → Option Node
next_node intake s = some retrieve
next_node retrieve s = some investigate
next_node investigate s = some root_cause
next_node root_cause s = some remediation
next_node remediation s = some critique
next_node critique s = some (after_critique (route_after_critique s))
next_node security_review s = some (after_review (route_after_security_review s))
next_node approval s = after_approval (route_after_approval s)
next_node compose s = some notify
next_node notify s = none
next_node reject s = none

-- The nodes in the order of the run, and the last state; `none` where the limit is reached.
abbrev and_then :
    Node → Option (List Node × IncidentAgentState) → Option (List Node × IncidentAgentState)
and_then n none = none
and_then n (some r) = some (n ∷ r.0, r.1)

unfoldable pub run_from : ℕ → Node → IncidentAgentState → Option (List Node × IncidentAgentState)
run_from zero n s = none
run_from (suc limit) n s = elim (next_node n (run_node n s)) [
  | none ↦ some (n ∷ [], run_node n s)
  | some m ↦ and_then n (run_from limit m (run_node n s))
]

-- `graph.ainvoke(state)`.
unfoldable pub invoke : IncidentAgentState → Option (List Node × IncidentAgentState)
invoke s = run_from 25 intake s
