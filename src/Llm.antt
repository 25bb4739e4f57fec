-- ===== src/Llm.antt =====
-- src/eset_incident_ai/infrastructure/llm
pub mod LocalGateway
