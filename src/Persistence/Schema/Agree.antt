-- ===== src/Persistence/Schema/Agree.antt =====
-- The tables that the migrations make, against those that the repositories would make.
use eset_incident_ai.Prelude.{
  String, ◌≡◌, refl, Bool, true, false, ◌&&◌, Option, none, some, List, [], ◌∷◌, ◌++◌, str_eq, ◌==◌,
  if◌then◌else◌, any,
}
use eset_incident_ai.Persistence.Schema.{
  ColumnType, uuid, text_type, jsonb, timestamptz, integer, bigint, boolean, varchar, numeric,
  Column, Tables, TableDef, has_table, optional,
}
use eset_incident_ai.Persistence.Schema.Migrations.{
  raw_eset_events_table, incidents_table, knowledge_documents_table, knowledge_chunks_table,
  incident_analyses_table, notification_deliveries_table, pending_approvals_table,
  collection_runs_table, pending_detection_approvals_table, detection_collection_runs_table,
}
use eset_incident_ai.Persistence.Schema.Ensured.{
  ensured_tables, ensure, ensure_column, ensure_tables,
}

abbrev pub names : List (String × TableDef) → List String
names [] = []
names ((n, d) ∷ rest) = n ∷ names rest

abbrev pub without : List String → Tables → Bool
without [] ts = true
without (n ∷ ns) ts = (if has_table n ts then false else true) && without ns ts

abbrev same_type : ColumnType → ColumnType → Bool
same_type uuid uuid = true
same_type text_type text_type = true
same_type jsonb jsonb = true
same_type timestamptz timestamptz = true
same_type integer integer = true
same_type bigint bigint = true
same_type boolean boolean = true
same_type (varchar m) (varchar n) = m == n
same_type (numeric m k) (numeric n l) = (m == n) && (k == l)
same_type s t = false

abbrev same_default : Option String → Option String → Bool
same_default none none = true
same_default (some a) (some b) = str_eq a b
same_default none (some b) = false
same_default (some a) none = false

abbrev same_flag : Bool → Bool → Bool
same_flag true b = b
same_flag false b = if b then false else true

abbrev same_column : Column → Column → Bool
same_column c b =
    str_eq c.name b.name
    && same_type c.type b.type
    && same_flag c.nullable b.nullable
    && same_default c.default b.default

abbrev same_texts : List String → List String → Bool
same_texts [] [] = true
same_texts (a ∷ as_rest) (b ∷ bs) = str_eq a b && same_texts as_rest bs
same_texts [] (b ∷ bs) = false
same_texts (a ∷ as_rest) [] = false

abbrev all_in : List Column → List Column → Bool
all_in [] cs = true
all_in (b ∷ bs) cs = any (same_column b) cs && all_in bs cs

abbrev same_keys : List (List String) → List (List String) → Bool
same_keys [] [] = true
same_keys (a ∷ as_rest) (b ∷ bs) = same_texts a b && same_keys as_rest bs
same_keys [] (b ∷ bs) = false
same_keys (a ∷ as_rest) [] = false

-- The same columns, in any order, with the same types and defaults, and the same unique keys.
abbrev pub agrees : TableDef → TableDef → Bool
agrees d e = all_in d.columns e.columns && all_in e.columns d.columns && same_keys d.unique e.unique

abbrev found : TableDef → String → Tables → Bool
found d name [] = false
found d name ((n, e) ∷ ts) = if str_eq n name then agrees d e else found d name ts

abbrev pub all_found : List (String × TableDef) → Tables → Bool
all_found [] ts = true
all_found ((n, d) ∷ rest) ts = found d n ts && all_found rest ts

-- The columns of a model are those of its table, up to the defaults that Python fills in; the table
-- may have more.
abbrev fits_column : Column → Column → Bool
fits_column c b = str_eq c.name b.name && same_type c.type b.type && same_flag c.nullable b.nullable

abbrev all_fit : List Column → List Column → Bool
all_fit [] cs = true
all_fit (b ∷ bs) cs = any (fits_column b) cs && all_fit bs cs

abbrev fits_table : TableDef → String → Tables → Bool
fits_table d name [] = false
fits_table d name ((n, e) ∷ ts) =
    if str_eq n name
    then all_fit d.columns e.columns && same_keys d.unique e.unique
    else fits_table d name ts

abbrev pub models_fit : List (String × TableDef) → Tables → Bool
models_fit [] ts = true
models_fit ((n, d) ∷ rest) ts = fits_table d n ts && models_fit rest ts

-- The tables of the seven migrations, the newest first.
abbrev pub migrated : Tables
migrated =
    ("detection_collection_runs", detection_collection_runs_table)
    ∷ ("pending_detection_approvals", pending_detection_approvals_table)
    ∷ (
      "collection_runs",
      record collection_runs_table {
        columns = collection_runs_table.columns ++ (optional "error_message" text_type ∷ []);
      },
    )
    ∷ ("pending_approvals", pending_approvals_table)
    ∷ ("notification_deliveries", notification_deliveries_table)
    ∷ ("incident_analyses", incident_analyses_table)
    ∷ ("knowledge_chunks", knowledge_chunks_table)
    ∷ ("knowledge_documents", knowledge_documents_table)
    ∷ ("incidents", incidents_table)
    ∷ ("raw_eset_events", raw_eset_events_table)
    ∷ []

pub agreement : all_found ensured_tables migrated ≡ true
agreement = refl

pub ensured : (ts : Tables) → ensure_tables (migrated ++ ts) ≡ migrated ++ ts
unfolding ensure ensure_column
ensured ts = refl
