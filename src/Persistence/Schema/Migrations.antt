-- ===== src/Persistence/Schema/Migrations.antt =====
-- migrations/versions: the seven scripts, each with its `upgrade` and its `downgrade`.
use eset_incident_ai.Prelude.{List, [], ◌∷◌}
use eset_incident_ai.Exec.{ok}
use eset_incident_ai.Persistence.Schema.{
  uuid, text_type, jsonb, timestamptz, integer, boolean, varchar, numeric, TableDef, key, serial,
  required, optional, defaulted, Step, ◌⨾◌, create_table, drop_table, add_column, drop_column,
  Migration,
}

abbrev pub raw_eset_events_table : TableDef
raw_eset_events_table = record {
  columns =
      key "id" uuid
      ∷ required "external_id" (varchar 128)
      ∷ required "event_type" (varchar 50)
      ∷ required "payload" jsonb
      ∷ required "payload_hash" (varchar 64)
      ∷ required "collected_at" timestamptz
      ∷ defaulted "created_at" timestamptz "NOW()"
      ∷ [];
  unique = ("external_id" ∷ "payload_hash" ∷ []) ∷ [];
  references = [];
}

abbrev pub incidents_table : TableDef
incidents_table = record {
  columns =
      key "id" uuid
      ∷ required "eset_incident_uuid" (varchar 128)
      ∷ required "title" text_type
      ∷ required "severity" (varchar 20)
      ∷ required "status" (varchar 30)
      ∷ optional "detected_at" timestamptz
      ∷ optional "updated_at_source" timestamptz
      ∷ optional "device_id" (varchar 128)
      ∷ optional "user_ref" (varchar 128)
      ∷ optional "summary" text_type
      ∷ required "normalized_payload" jsonb
      ∷ required "content_hash" (varchar 64)
      ∷ defaulted "analysis_status" (varchar 30) "pending"
      ∷ defaulted "created_at" timestamptz "NOW()"
      ∷ defaulted "updated_at" timestamptz "NOW()"
      ∷ [];
  unique = ("eset_incident_uuid" ∷ []) ∷ [];
  references = [];
}

abbrev pub knowledge_documents_table : TableDef
knowledge_documents_table = record {
  columns =
      key "id" uuid
      ∷ required "source_type" (varchar 50)
      ∷ required "source_id" (varchar 128)
      ∷ required "title" text_type
      ∷ required "content" text_type
      ∷ defaulted "metadata" jsonb "{}"
      ∷ required "content_hash" (varchar 64)
      ∷ defaulted "created_at" timestamptz "NOW()"
      ∷ [];
  unique = ("source_type" ∷ "source_id" ∷ "content_hash" ∷ []) ∷ [];
  references = [];
}

abbrev pub knowledge_chunks_table : TableDef
knowledge_chunks_table = record {
  columns =
      key "id" uuid
      ∷ required "document_id" uuid
      ∷ required "chunk_index" integer
      ∷ required "content" text_type
      ∷ defaulted "metadata" jsonb "{}"
      ∷ optional "embedding" text_type
      ∷ defaulted "created_at" timestamptz "NOW()"
      ∷ [];
  unique = ("document_id" ∷ "chunk_index" ∷ []) ∷ [];
  references = ("document_id", "knowledge_documents.id") ∷ [];
}

abbrev pub incident_analyses_table : TableDef
incident_analyses_table = record {
  columns =
      key "id" uuid
      ∷ required "incident_id" uuid
      ∷ required "workflow_run_id" (varchar 128)
      ∷ required "model_provider" (varchar 30)
      ∷ required "model_name" (varchar 100)
      ∷ required "prompt_version" (varchar 50)
      ∷ required "result" jsonb
      ∷ required "confidence" (numeric 5 4)
      ∷ required "requires_approval" boolean
      ∷ required "status" (varchar 30)
      ∷ defaulted "created_at" timestamptz "NOW()"
      ∷ [];
  unique = [];
  references = ("incident_id", "incidents.id") ∷ [];
}

abbrev pub notification_deliveries_table : TableDef
notification_deliveries_table = record {
  columns =
      serial "id"
      ∷ required "idempotency_key" (varchar 255)
      ∷ required "destination" (varchar 100)
      ∷ required "delivery_status" (varchar 30)
      ∷ optional "delivered_at" timestamptz
      ∷ defaulted "created_at" timestamptz "NOW()"
      ∷ [];
  unique = ("idempotency_key" ∷ []) ∷ [];
  references = [];
}

abbrev pub pending_approvals_table : TableDef
pending_approvals_table = record {
  columns =
      serial "id"
      ∷ required "incident_id" (varchar 128)
      ∷ required "severity" (varchar 20)
      ∷ required "title" text_type
      ∷ required "status" (varchar 30)
      ∷ defaulted "payload" jsonb "{}"
      ∷ defaulted "created_at" timestamptz "NOW()"
      ∷ defaulted "updated_at" timestamptz "NOW()"
      ∷ [];
  unique = ("incident_id" ∷ []) ∷ [];
  references = [];
}

abbrev pub collection_runs_table : TableDef
collection_runs_table = record {
  columns =
      serial "id"
      ∷ required "status" (varchar 30)
      ∷ required "collected_count" integer
      ∷ required "notified_count" integer
      ∷ required "duplicate_skipped_count" integer
      ∷ required "pending_approval_count" integer
      ∷ required "skipped_count" integer
      ∷ defaulted "observed_keys" jsonb "[]"
      ∷ defaulted "created_at" timestamptz "NOW()"
      ∷ [];
  unique = [];
  references = [];
}

abbrev pub pending_detection_approvals_table : TableDef
pending_detection_approvals_table = record {
  columns =
      serial "id"
      ∷ required "detection_id" (varchar 128)
      ∷ required "severity" (varchar 20)
      ∷ required "title" text_type
      ∷ required "status" (varchar 30)
      ∷ defaulted "payload" jsonb "{}"
      ∷ defaulted "created_at" timestamptz "NOW()"
      ∷ defaulted "updated_at" timestamptz "NOW()"
      ∷ [];
  unique = ("detection_id" ∷ []) ∷ [];
  references = [];
}

abbrev pub detection_collection_runs_table : TableDef
detection_collection_runs_table = record {
  columns =
      serial "id"
      ∷ required "status" (varchar 30)
      ∷ required "collected_count" integer
      ∷ required "notified_count" integer
      ∷ required "duplicate_skipped_count" integer
      ∷ required "pending_approval_count" integer
      ∷ required "skipped_count" integer
      ∷ defaulted "observed_keys" jsonb "[]"
      ∷ optional "error_message" text_type
      ∷ optional "last_page_token" text_type
      ∷ defaulted "created_at" timestamptz "NOW()"
      ∷ [];
  unique = [];
  references = [];
}

-- `op.execute("CREATE EXTENSION IF NOT EXISTS vector")` makes no table.
abbrev pub create_extension : Step
create_extension ts = ok ts

abbrev pub initial_schema : Migration
initial_schema = record {
  revision = "001_initial_schema";
  upgrade =
      create_table "raw_eset_events" raw_eset_events_table
      ⨾ create_table "incidents" incidents_table;
  downgrade = drop_table "incidents" ⨾ drop_table "raw_eset_events";
}

abbrev pub add_vector_index : Migration
add_vector_index = record {
  revision = "002_add_vector_index";
  upgrade =
      create_extension
      ⨾ create_table "knowledge_documents" knowledge_documents_table
      ⨾ create_table "knowledge_chunks" knowledge_chunks_table
      ⨾ create_table "incident_analyses" incident_analyses_table;
  downgrade =
      drop_table "incident_analyses"
      ⨾ drop_table "knowledge_chunks"
      ⨾ drop_table "knowledge_documents";
}

abbrev pub add_notification_deliveries : Migration
add_notification_deliveries = record {
  revision = "003_add_notification_deliveries";
  upgrade = create_table "notification_deliveries" notification_deliveries_table;
  downgrade = drop_table "notification_deliveries";
}

abbrev pub add_pending_approvals : Migration
add_pending_approvals = record {
  revision = "004_add_pending_approvals";
  upgrade = create_table "pending_approvals" pending_approvals_table;
  downgrade = drop_table "pending_approvals";
}

abbrev pub add_collection_runs : Migration
add_collection_runs = record {
  revision = "005_add_collection_runs";
  upgrade = create_table "collection_runs" collection_runs_table;
  downgrade = drop_table "collection_runs";
}

abbrev pub add_collection_run_error_message : Migration
add_collection_run_error_message = record {
  revision = "006_add_collection_run_error_message";
  upgrade = add_column "collection_runs" (optional "error_message" text_type);
  downgrade = drop_column "collection_runs" "error_message";
}

abbrev pub add_detection_tables : Migration
add_detection_tables = record {
  revision = "007_add_detection_tables";
  upgrade =
      create_table "pending_detection_approvals" pending_detection_approvals_table
      ⨾ create_table "detection_collection_runs" detection_collection_runs_table;
  downgrade = drop_table "detection_collection_runs" ⨾ drop_table "pending_detection_approvals";
}

-- In the order of `down_revision`.
abbrev pub migrations : List Migration
migrations =
    initial_schema ∷ add_vector_index ∷ add_notification_deliveries ∷ add_pending_approvals
    ∷ add_collection_runs ∷ add_collection_run_error_message ∷ add_detection_tables ∷ []
