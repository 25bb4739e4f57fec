-- ===== src/Agents.antt =====
-- src/eset_incident_ai/agents: the workflow of an incident analysis as a graph of nodes.
pub mod State
pub mod Nodes
pub mod Router
pub mod Graph
