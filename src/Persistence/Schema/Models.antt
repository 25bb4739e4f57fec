-- ===== src/Persistence/Schema/Models.antt =====
-- src/eset_incident_ai/infrastructure/persistence/models.py: the columns of the SQLAlchemy models. A
-- default that Python fills in is none of the table.
use eset_incident_ai.Prelude.{List, [], ◌∷◌, String}
use eset_incident_ai.Persistence.Schema.{
  uuid, text_type, jsonb, timestamptz, integer, boolean, varchar, numeric, TableDef, key, required,
  defaulted,
}

abbrev pub raw_eset_events_model : TableDef
raw_eset_events_model = record {
  columns =
      key "id" uuid
      ∷ required "external_id" (varchar 128)
      ∷ required "event_type" (varchar 50)
      ∷ required "payload" jsonb
      ∷ required "payload_hash" (varchar 64)
      ∷ required "collected_at" timestamptz
      ∷ defaulted "created_at" timestamptz "NOW()"
      ∷ [];
  unique = ("external_id" ∷ "payload_hash" ∷ []) ∷ [];
  references = [];
}

abbrev pub incidents_model : TableDef
incidents_model = record {
  columns =
      key "id" uuid
      ∷ required "eset_incident_uuid" (varchar 128)
      ∷ required "title" text_type
      ∷ required "severity" (varchar 20)
      ∷ required "status" (varchar 30)
      ∷ required "normalized_payload" jsonb
      ∷ required "content_hash" (varchar 64)
      ∷ required "analysis_status" (varchar 30)
      ∷ defaulted "created_at" timestamptz "NOW()"
      ∷ defaulted "updated_at" timestamptz "NOW()"
      ∷ [];
  unique = ("eset_incident_uuid" ∷ []) ∷ [];
  references = [];
}

abbrev pub knowledge_documents_model : TableDef
knowledge_documents_model = record {
  columns =
      key "id" uuid
      ∷ required "source_type" (varchar 50)
      ∷ required "source_id" (varchar 128)
      ∷ required "title" text_type
      ∷ required "content" text_type
      ∷ required "metadata" jsonb
      ∷ required "content_hash" (varchar 64)
      ∷ [];
  unique = ("source_type" ∷ "source_id" ∷ "content_hash" ∷ []) ∷ [];
  references = [];
}

abbrev pub knowledge_chunks_model : TableDef
knowledge_chunks_model = record {
  columns =
      key "id" uuid
      ∷ required "document_id" uuid
      ∷ required "chunk_index" integer
      ∷ required "content" text_type
      ∷ required "metadata" jsonb
      ∷ [];
  unique = ("document_id" ∷ "chunk_index" ∷ []) ∷ [];
  references = ("document_id", "knowledge_documents.id") ∷ [];
}

abbrev pub incident_analyses_model : TableDef
incident_analyses_model = record {
  columns =
      key "id" uuid
      ∷ required "incident_id" uuid
      ∷ required "workflow_run_id" (varchar 128)
      ∷ required "model_provider" (varchar 30)
      ∷ required "model_name" (varchar 100)
      ∷ required "prompt_version" (varchar 50)
      ∷ required "result" jsonb
      ∷ required "confidence" (numeric 5 4)
      ∷ required "requires_approval" boolean
      ∷ required "status" (varchar 30)
      ∷ [];
  unique = [];
  references = ("incident_id", "incidents.id") ∷ [];
}

abbrev pub model_tables : List (String × TableDef)
model_tables =
    ("raw_eset_events", raw_eset_events_model)
    ∷ ("incidents", incidents_model)
    ∷ ("knowledge_documents", knowledge_documents_model)
    ∷ ("knowledge_chunks", knowledge_chunks_model)
    ∷ ("incident_analyses", incident_analyses_model)
    ∷ []
