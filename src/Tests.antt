-- ===== src/Tests.antt =====
-- Runs at concrete inputs, and the theorems applied to them.
mod Fixtures
mod Ingest
mod Machine
mod Deliveries
mod Detections
mod Incidents
mod Review
mod Backfill
mod Api
mod SmokeCheck
mod Agents
mod Security
mod Rag
mod Embedder
mod Schema
mod Eset
mod Texts
mod Orders
