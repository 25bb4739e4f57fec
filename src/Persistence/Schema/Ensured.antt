-- ===== src/Persistence/Schema/Ensured.antt =====
-- The `CREATE TABLE IF NOT EXISTS` statements of the repositories of
-- src/eset_incident_ai/infrastructure/persistence.
use eset_incident_ai.Prelude.{List, [], ◌∷◌, ◌++◌, String, str_eq, if◌then◌else◌}
use eset_incident_ai.Persistence.Schema.{
  uuid, text_type, jsonb, timestamptz, integer, varchar, Column, TableDef, Tables, key, serial,
  required, optional, defaulted, has_table, has_column,
}

abbrev pub notification_deliveries_sql : TableDef
notification_deliveries_sql = record {
  columns =
      serial "id"
      ∷ required "idempotency_key" (varchar 255)
      ∷ required "destination" (varchar 100)
      ∷ required "delivery_status" (varchar 30)
      ∷ optional "delivered_at" timestamptz
      ∷ defaulted "created_at" timestamptz "NOW()"
      ∷ [];
  unique = ("idempotency_key" ∷ []) ∷ [];
  references = [];
}

abbrev pub pending_approvals_sql : TableDef
pending_approvals_sql = record {
  columns =
      serial "id"
      ∷ required "incident_id" (varchar 128)
      ∷ required "severity" (varchar 20)
      ∷ required "title" text_type
      ∷ required "status" (varchar 30)
      ∷ defaulted "payload" jsonb "{}"
      ∷ defaulted "created_at" timestamptz "NOW()"
      ∷ defaulted "updated_at" timestamptz "NOW()"
      ∷ [];
  unique = ("incident_id" ∷ []) ∷ [];
  references = [];
}

abbrev pub pending_detection_approvals_sql : TableDef
pending_detection_approvals_sql = record {
  columns =
      serial "id"
      ∷ required "detection_id" (varchar 128)
      ∷ required "severity" (varchar 20)
      ∷ required "title" text_type
      ∷ required "status" (varchar 30)
      ∷ defaulted "payload" jsonb "{}"
      ∷ defaulted "created_at" timestamptz "NOW()"
      ∷ defaulted "updated_at" timestamptz "NOW()"
      ∷ [];
  unique = ("detection_id" ∷ []) ∷ [];
  references = [];
}

abbrev pub collection_runs_sql : TableDef
collection_runs_sql = record {
  columns =
      serial "id"
      ∷ required "status" (varchar 30)
      ∷ required "collected_count" integer
      ∷ required "notified_count" integer
      ∷ required "duplicate_skipped_count" integer
      ∷ required "pending_approval_count" integer
      ∷ required "skipped_count" integer
      ∷ defaulted "observed_keys" jsonb "[]"
      ∷ optional "error_message" text_type
      ∷ defaulted "created_at" timestamptz "NOW()"
      ∷ [];
  unique = [];
  references = [];
}

abbrev pub detection_collection_runs_sql : TableDef
detection_collection_runs_sql = record {
  columns =
      serial "id"
      ∷ required "status" (varchar 30)
      ∷ required "collected_count" integer
      ∷ required "notified_count" integer
      ∷ required "duplicate_skipped_count" integer
      ∷ required "pending_approval_count" integer
      ∷ required "skipped_count" integer
      ∷ defaulted "observed_keys" jsonb "[]"
      ∷ optional "error_message" text_type
      ∷ optional "last_page_token" text_type
      ∷ defaulted "created_at" timestamptz "NOW()"
      ∷ [];
  unique = [];
  references = [];
}

abbrev pub knowledge_documents_sql : TableDef
knowledge_documents_sql = record {
  columns =
      key "id" uuid
      ∷ required "source_type" (varchar 50)
      ∷ required "source_id" (varchar 128)
      ∷ required "title" text_type
      ∷ required "content" text_type
      ∷ defaulted "metadata" jsonb "{}"
      ∷ required "content_hash" (varchar 64)
      ∷ defaulted "created_at" timestamptz "NOW()"
      ∷ [];
  unique = ("source_type" ∷ "source_id" ∷ "content_hash" ∷ []) ∷ [];
  references = [];
}

abbrev pub knowledge_chunks_sql : TableDef
knowledge_chunks_sql = record {
  columns =
      key "id" uuid
      ∷ required "document_id" uuid
      ∷ required "chunk_index" integer
      ∷ required "content" text_type
      ∷ defaulted "metadata" jsonb "{}"
      ∷ optional "embedding" text_type
      ∷ defaulted "created_at" timestamptz "NOW()"
      ∷ [];
  unique = ("document_id" ∷ "chunk_index" ∷ []) ∷ [];
  references = ("document_id", "knowledge_documents.id") ∷ [];
}

-- Each table of a repository, with its columns.
abbrev pub ensured_tables : List (String × TableDef)
ensured_tables =
    ("notification_deliveries", notification_deliveries_sql)
    ∷ ("pending_approvals", pending_approvals_sql)
    ∷ ("pending_detection_approvals", pending_detection_approvals_sql)
    ∷ ("collection_runs", collection_runs_sql)
    ∷ ("detection_collection_runs", detection_collection_runs_sql)
    ∷ ("knowledge_documents", knowledge_documents_sql)
    ∷ ("knowledge_chunks", knowledge_chunks_sql)
    ∷ []

-- `CREATE TABLE IF NOT EXISTS`.
unfoldable pub ensure : String → TableDef → Tables → Tables
ensure name d ts = if has_table name ts then ts else (name, d) ∷ ts

-- `ADD COLUMN IF NOT EXISTS`, on a table that is there.
unfoldable pub ensure_column : Column → TableDef → TableDef
ensure_column c d =
    if has_column c.name d.columns then d else record d { columns = d.columns ++ (c ∷ []) }

abbrev pub in_table : String → (TableDef → TableDef) → Tables → Tables
in_table name f [] = []
in_table name f ((n, d) ∷ ts) =
    let rest = in_table name f ts in if str_eq n name then (n, f d) ∷ ts else (n, d) ∷ rest

-- The statements of all repositories.
abbrev pub ensure_each : List (String × TableDef) → Tables → Tables
ensure_each [] ts = ts
ensure_each ((n, d) ∷ rest) ts = ensure_each rest (ensure n d ts)

abbrev pub ensure_tables : Tables → Tables
ensure_tables ts =
    in_table "collection_runs" (ensure_column (optional "error_message" text_type))
      (ensure_each ensured_tables ts)
