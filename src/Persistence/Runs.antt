-- ===== src/Persistence/Runs.antt =====
-- src/eset_incident_ai/infrastructure/persistence/collection_run_repository.py and
-- detection_collection_run_repository.py: the records of collection runs. A row is inserted and
-- never changed. `ORDER BY created_at DESC` is the order of the table, which holds where no two
-- rows are inserted at one time.
pub mod Incidents
pub mod Detections
