-- ===== src/Persistence/Schema/Upgraded.antt =====
-- A database without tables of the program, at the head of the migrations.
use eset_incident_ai.Prelude.{◌≡◌, refl, [], ◌∷◌, ◌++◌}
use eset_incident_ai.Exec.{ok}
use eset_incident_ai.Persistence.Schema.{Tables, alter, add_column, optional, text_type}
use eset_incident_ai.Persistence.Schema.Migrations.{collection_runs_table}

pub added_lem :
    (ts : Tables)
    → add_column "collection_runs"
        (optional "error_message" text_type)
        (("collection_runs", collection_runs_table) ∷ ts)
      ≡ ok (
          (
            "collection_runs",
            record collection_runs_table {
              columns = collection_runs_table.columns ++ (optional "error_message" text_type ∷ []);
            },
          )
          ∷ ts)
unfolding alter
added_lem ts = refl
