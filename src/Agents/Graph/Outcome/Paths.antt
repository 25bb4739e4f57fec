-- ===== src/Agents/Graph/Outcome/Paths.antt =====
-- The nodes of a run up to each fork, and where the forks lead.
use eset_incident_ai.Prelude.{
  ℕ, suc, ◌≡◌, refl, Bool, true, false, not, ◌&&◌, ◌||◌, Option, none, some, List, [], ◌∷◌, ltb,
  any,
}
use eset_incident_ai.Agents.State.{IncidentAgentState, ApprovalStatus, get_or}
use eset_incident_ai.Agents.Nodes.{
  intake_node, retrieve_node, investigate_node, root_cause_node, remediation_node, critique_node,
  security_review_node, approval_node, reject_node, compose_notification_node, notify_node,
}
use eset_incident_ai.Agents.Router.{
  route_after_critique, route_after_security_review, route_after_approval,
}
use eset_incident_ai.Agents.Graph.{Node, run_node, next_node, run_from, invoke}

abbrev is_notify : Node → Bool
is_notify Node.notify = true
is_notify n = false

abbrev pub is_approved : Option ApprovalStatus → Bool
is_approved (some ApprovalStatus.approved) = true
is_approved o = false

abbrev pub too_unsure : IncidentAgentState → Bool
too_unsure s = ltb (get_or 0 s.confidence) 6500

-- Who may be notified: a confident analysis that needs no approval, or has it already.
abbrev pub is_cleared : IncidentAgentState → Bool
is_cleared s =
    not (too_unsure s)
    && (not (get_or false s.requires_human_approval) || is_approved s.approval_status)

abbrev pub Ends : IncidentAgentState → Type 0
Ends s =
    (trace : List Node) × (s' : IncidentAgentState) × (invoke s ≡ some (trace, s'))
    × (any is_notify trace ≡ is_cleared s)
    × (too_unsure s ≡ true → s'.approval_status ≡ some ApprovalStatus.rejected)

-- A run from one node on: it goes along an edge, or ends.
abbrev pub Runs : ℕ → Node → IncidentAgentState → List Node → IncidentAgentState → Type 0
Runs limit n s trace s' = run_from limit n s ≡ some (trace, s')

pub goes :
    (limit : ℕ) (n m : Node) (s : IncidentAgentState) {trace : List Node} {s' : IncidentAgentState}
    → next_node n (run_node n s) ≡ some m
    → Runs limit m (run_node n s) trace s'
    → Runs (suc limit) n s (n ∷ trace) s'
unfolding run_from
goes limit n m s e r = rw (e, run_from, r)

pub ends :
    (limit : ℕ) (n : Node) (s : IncidentAgentState)
    → next_node n (run_node n s) ≡ none
    → Runs (suc limit) n s (n ∷ []) (run_node n s)
unfolding run_from
ends limit n s e = rw (e, run_from)

-- The nodes before the first fork, and the state that `critique` leaves.
abbrev pub before_fork : List Node → List Node
before_fork ns =
    Node.intake ∷ Node.retrieve ∷ Node.investigate ∷ Node.root_cause ∷ Node.remediation
    ∷ Node.critique ∷ ns

abbrev remedied : IncidentAgentState → IncidentAgentState
remedied s = run_node Node.remediation (
    run_node Node.root_cause
      (run_node Node.investigate (run_node Node.retrieve (run_node Node.intake s))))

abbrev pub criticised : IncidentAgentState → IncidentAgentState
criticised s = run_node Node.critique (remedied s)

abbrev pub secured : IncidentAgentState → IncidentAgentState
secured s = run_node Node.security_review (criticised s)

abbrev pub held : IncidentAgentState → IncidentAgentState
held s = run_node Node.approval (secured s)

pub to_fork :
    (s : IncidentAgentState) (m : Node) {trace : List Node} {s' : IncidentAgentState}
    → next_node Node.critique (criticised s) ≡ some m
    → Runs 19 m (criticised s) trace s'
    → invoke s ≡ some (before_fork trace, s')
unfolding invoke next_node
to_fork s m e r = goes 24 Node.intake Node.retrieve _ refl (
    goes 23 Node.retrieve Node.investigate _ refl (
      goes 22 Node.investigate Node.root_cause _ refl (
        goes 21 Node.root_cause Node.remediation _ refl
          (goes 20 Node.remediation Node.critique _ refl (goes 19 Node.critique m _ e r)))))

unfoldable pub node_code : Unit {0}
unfolding intake_node retrieve_node investigate_node root_cause_node remediation_node critique_node
    security_review_node approval_node reject_node compose_notification_node notify_node
    route_after_critique route_after_security_review route_after_approval run_node next_node
node_code = tt

pub from_compose :
    (limit : ℕ) (s : IncidentAgentState)
    → Runs
        (suc (suc limit))
        Node.compose
        s
        (Node.compose ∷ Node.notify ∷ [])
        (run_node Node.notify (run_node Node.compose s))
unfolding node_code
from_compose limit s =
    goes (suc limit) Node.compose Node.notify s refl (ends limit Node.notify _ refl)

pub from_reject :
    (limit : ℕ) (s : IncidentAgentState)
    → Runs (suc limit) Node.reject s (Node.reject ∷ []) (run_node Node.reject s)
unfolding node_code
from_reject limit s = ends limit Node.reject s refl

-- The status that `reject` writes.
pub rejected :
    (s : IncidentAgentState)
    → (run_node Node.reject s).approval_status ≡ some ApprovalStatus.rejected
unfolding node_code
rejected s = refl

pub fork-unsure :
    (s : IncidentAgentState)
    → too_unsure s ≡ true
    → next_node Node.critique (criticised s) ≡ some Node.reject
unfolding node_code
fork-unsure s e = rw e

pub fork-sure :
    (s : IncidentAgentState)
    → too_unsure s ≡ false
    → next_node Node.critique (criticised s) ≡ some Node.security_review
unfolding node_code
fork-sure s e = rw e

pub review-free :
    (s : IncidentAgentState)
    → get_or false s.requires_human_approval ≡ false
    → next_node Node.security_review (secured s) ≡ some Node.compose
unfolding node_code
review-free s f = rw f

pub review-held :
    (s : IncidentAgentState)
    → get_or false s.requires_human_approval ≡ true
    → next_node Node.security_review (secured s) ≡ some Node.approval
unfolding node_code
review-held s f = rw f
