-- ===== src/Eset.antt =====
-- src/eset_incident_ai/infrastructure/eset: the clients of the ESET services.
pub mod Http
pub mod Auth
pub mod Requests
