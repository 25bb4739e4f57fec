-- ===== src/Domain.antt =====
-- The domain layer: severities, the analysis and the incident entities.
pub mod Severity
pub mod Analysis
pub mod Incident
pub mod RiskScoring
