-- ===== src/Scripts.antt =====
-- scripts: the programs that an operator starts by hand.
pub mod Backfill
pub mod Ingest
pub mod SmokeCheck
pub mod Notify
