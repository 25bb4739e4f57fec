-- ===== src/Security.antt =====
-- src/eset_incident_ai/security
pub mod OutputPolicy
pub mod Sanitizer
pub mod Detectors
pub mod AccessControl
