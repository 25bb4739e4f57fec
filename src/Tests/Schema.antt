-- ===== src/Tests/Schema.antt =====
-- The migrations on small databases.
use eset_incident_ai.Prelude.{◌≡◌, refl, none, [], ◌∷◌, ◌++◌, arith}
use eset_incident_ai.World.{Error}
use eset_incident_ai.Exec.{err}
use eset_incident_ai.Persistence.Schema.{Tables, optional, text_type, Database, upgrade_head}
use eset_incident_ai.Persistence.Schema.Migrations.{migrations, collection_runs_table}
use eset_incident_ai.Persistence.Schema.Head.{upgrade_head-fails}

abbrev empty : Database
empty = record { tables = []; version = none }

upgrade_head-fails_example : (e : Error) × (upgrade_head 32 migrations empty ≡ (err e, empty))
upgrade_head-fails_example = upgrade_head-fails 32 empty (omega arith) refl

abbrev runs_only : Tables
runs_only = ("collection_runs", collection_runs_table) ∷ []

abbrev migrated_runs : Tables
migrated_runs =
    (
      "collection_runs",
      record collection_runs_table {
        columns = collection_runs_table.columns ++ (optional "error_message" text_type ∷ []);
      },
    )
    ∷ []
