-- ===== src/Api.antt =====
-- src/eset_incident_ai/api: the composition of the program, and what its routes answer.
pub mod Dependencies
pub mod Responses
pub mod Routes
pub mod Health
pub mod App
pub mod Schedule
