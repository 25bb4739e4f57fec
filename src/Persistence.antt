-- ===== src/Persistence.antt =====
-- The PostgreSQL repositories. A statement is one external call; `CREATE TABLE IF NOT EXISTS` is a
-- call of its own, on a connection of its own, that changes no row.
pub mod Knowledge
pub mod Vectors
pub mod Deliveries
pub mod Runs
pub mod Approvals
pub mod Schema
