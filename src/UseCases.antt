-- ===== src/UseCases.antt =====
-- The application layer: the use cases, over the ports that they are given.
pub mod Ports
pub mod Detections
pub mod Incidents
pub mod Review
pub mod Normalize
pub mod Single
