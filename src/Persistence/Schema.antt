-- ===== src/Persistence/Schema.antt =====
-- The tables of the database as Alembic and PostgreSQL see them: the operations that the scripts of
-- migrations/versions call, and those of the statements that the repositories of
-- src/eset_incident_ai/infrastructure/persistence run first.
pub mod Migrations
pub mod Ensured
pub mod Models
pub mod Undo
pub mod Head
pub mod Agree
pub mod Upgraded
use eset_incident_ai.Prelude.{
  ℕ, String, Bool, true, false, ◌||◌, Option, none, some, List, [], ◌∷◌, ◌++◌, str_eq, str_len, ltb,
  if◌then◌else◌,
}
use eset_incident_ai.World.{Error, other}
use eset_incident_ai.Exec.{Outcome, ok, err}

pub data ColumnType : Type 0 where
  uuid text_type jsonb timestamptz integer bigint boolean : ColumnType
  varchar : ℕ → ColumnType
  numeric : ℕ → ℕ → ColumnType

pub record Column : Type 0 where
  pub name : String
  pub type : ColumnType
  pub nullable : Bool
  pub default : Option String

-- `unique` and `references` are recorded: no table is refused for them.
pub record TableDef : Type 0 where
  pub columns : List Column
  pub unique : List (List String)
  pub references : List (String × String)

abbrev pub Tables : Type 0
Tables = List (String × TableDef)

-- The columns, as the scripts write them: a primary key, one that counts up, and the others.
abbrev pub key : String → ColumnType → Column
key name type = record { name = name; type = type; nullable = false; default = none }

abbrev pub serial : String → Column
serial name = record { name = name; type = bigint; nullable = false; default = some "nextval" }

abbrev pub required : String → ColumnType → Column
required name type = record { name = name; type = type; nullable = false; default = none }

abbrev pub optional : String → ColumnType → Column
optional name type = record { name = name; type = type; nullable = true; default = none }

abbrev pub defaulted : String → ColumnType → String → Column
defaulted name type default = record {
  name = name;
  type = type;
  nullable = false;
  default = some default;
}

abbrev pub failure {ℓ} : {A : Type ℓ} → String → Outcome A
failure class = err (record { class = other class; message = "" })

infixr 20 ◌⨾◌
abbrev pub then_run {ℓ κ} : {A : Type ℓ} {B : Type κ} → Outcome A → (A → Outcome B) → Outcome B
then_run (ok a) f = f a
then_run (err e) f = err e

-- One operation after another.
abbrev pub Step : Type 0
Step = Tables → Outcome Tables

abbrev pub ◌⨾◌ : Step → Step → Step
(f ⨾ g) ts = then_run (f ts) g

abbrev pub has_table : String → Tables → Bool
has_table name [] = false
has_table name ((n, d) ∷ ts) = str_eq n name || has_table name ts

abbrev pub remove_table : String → Tables → Tables
remove_table name [] = []
remove_table name ((n, d) ∷ ts) =
    let rest = remove_table name ts in if str_eq n name then ts else (n, d) ∷ rest

-- `op.create_table`, `op.drop_table`.
unfoldable pub create_table : String → TableDef → Step
create_table name d ts = if has_table name ts then failure "DuplicateTable" else ok ((name, d) ∷ ts)

unfoldable pub drop_table : String → Step
drop_table name ts =
    if has_table name ts then ok (remove_table name ts) else failure "UndefinedTable"

abbrev pub has_column : String → List Column → Bool
has_column name [] = false
has_column name (c ∷ cs) = str_eq c.name name || has_column name cs

abbrev pub remove_column : String → List Column → List Column
remove_column name [] = []
remove_column name (c ∷ cs) =
    let rest = remove_column name cs in if str_eq c.name name then cs else c ∷ rest

abbrev pub with_def : String → Tables → Outcome TableDef → Outcome Tables
with_def name ts (ok d) = ok ((name, d) ∷ ts)
with_def name ts (err e) = err e

abbrev pub after : String × TableDef → Outcome Tables → Outcome Tables
after t (ok ts) = ok (t ∷ ts)
after t (err e) = err e

-- `ALTER TABLE`.
unfoldable pub alter : (TableDef → Outcome TableDef) → String → Step
alter f name [] = failure "UndefinedTable"
alter f name ((n, d) ∷ ts) =
    let rest = alter f name ts in if str_eq n name then with_def n ts (f d) else after (n, d) rest

abbrev pub added : Column → TableDef → Outcome TableDef
added c d =
    if has_column c.name d.columns
    then failure "DuplicateColumn"
    else ok (record d { columns = d.columns ++ (c ∷ []) })

abbrev pub dropped : String → TableDef → Outcome TableDef
dropped name d =
    if has_column name d.columns
    then ok (record d { columns = remove_column name d.columns })
    else failure "UndefinedColumn"

-- `op.add_column`, `op.drop_column`.
abbrev pub add_column : String → Column → Step
add_column table c ts = alter (added c) table ts

abbrev pub drop_column : String → String → Step
drop_column table name ts = alter (dropped name) table ts

-- A script of migrations/versions.
pub record Migration : Type 0 where
  pub revision : String
  pub upgrade : Step
  pub downgrade : Step

-- The tables, and what Alembic keeps in its own: the revision that the database is at.
pub record Database : Type 0 where
  pub tables : Tables
  pub version : Option String

-- Alembic writes the revision to a column of `width` characters.
module _ (width : ℕ) where
  abbrev pub stamp : String → Tables → Outcome Database
  stamp revision ts =
      if ltb width (str_len revision)
      then failure "StringDataRightTruncation"
      else ok (record { tables = ts; version = some revision })

  unfoldable pub run_upgrades : List Migration → Database → Outcome Database
  run_upgrades [] db = ok db
  run_upgrades (m ∷ ms) db =
      then_run (then_run (m.upgrade db.tables) (stamp m.revision)) (λ db'. run_upgrades ms db')

abbrev after_revision : String → List Migration → List Migration
after_revision revision [] = []
after_revision revision (m ∷ ms) =
    let rest = after_revision revision ms in if str_eq m.revision revision then ms else rest

abbrev pub still_to_run : Option String → List Migration → List Migration
still_to_run none ms = ms
still_to_run (some revision) ms = after_revision revision ms

abbrev pub committed : Database → Outcome Database → Outcome (Unit {0}) × Database
committed db (ok db') = (ok tt, db')
committed db (err e) = (err e, db)

-- `alembic upgrade head`, in the one transaction of migrations/env.py.
abbrev pub upgrade_head : ℕ → List Migration → Database → Outcome (Unit {0}) × Database
upgrade_head width ms db = committed db (run_upgrades width (still_to_run db.version ms) db)
