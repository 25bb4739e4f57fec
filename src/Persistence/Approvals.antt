-- ===== src/Persistence/Approvals.antt =====
-- src/eset_incident_ai/infrastructure/persistence/approval_repository.py and
-- detection_approval_repository.py: the two tables of reviews, which have the same columns and
-- statements. `Desk` says which one is meant.
pub mod Rows
pub mod Payload
pub mod Frames
pub mod Open
use eset_incident_ai.Prelude.{
  ℕ, suc, String, Bool, true, false, not, ◌&&◌, ◌||◌, Option, none, some, List, [], ◌∷◌, take, ltb,
  ◌==◌, str_eq, str_len, if◌then◌else◌,
}
use eset_incident_ai.Value.{Fields}
use eset_incident_ai.World.{
  World, Error, other, Table, Approval, ReviewStatus, pending, approved, rejected,
}
use eset_incident_ai.Exec.{Exec, raise, query, execute, ◌>>=◌, ◌>>◌}

pub data Desk : Type 0 where
  incidents detections : Desk

abbrev pub table_of : Desk → World → Table Approval
table_of incidents w = w.incident_approvals
table_of detections w = w.detection_approvals

abbrev pub with_table : Desk → Table Approval → World → World
with_table incidents t w = record w { incident_approvals = t }
with_table detections t w = record w { detection_approvals = t }

abbrev pub is_pending : ReviewStatus → Bool
is_pending pending = true
is_pending approved = false
is_pending rejected = false

-- `WHERE id = %s AND status = 'pending'`.
abbrev pub is_open : ℕ → Approval → Bool
is_open id a = a.approval_id == id && is_pending a.status

-- The first row that passes the test, and the rows without it.
unfoldable pub take_out : (Approval → Bool) → List Approval → Option (Approval × List Approval)
take_out test [] = none
take_out test (a ∷ rows) =
    let rest = take_out test rows in
    if test a then some (a, rows) else elim rest [ none ↦ none | some (b, bs) ↦ some (b, a ∷ bs) ]

unfoldable pub select_open : ℕ → List Approval → Option Approval
select_open id [] = none
select_open id (a ∷ rows) = let rest = select_open id rows in if is_open id a then some a else rest

-- `SELECT … WHERE status = 'pending' ORDER BY updated_at DESC`.
unfoldable pub open_rows : List Approval → List Approval
open_rows [] = []
open_rows (a ∷ rows) = let rest = open_rows rows in if is_pending a.status then a ∷ rest else rest

-- `UPDATE … SET status = %s, updated_at = NOW() WHERE id = %s AND status = 'pending'`: at most one
-- row has the id, and it becomes the newest.
unfoldable pub review_row : ℕ → ReviewStatus → List Approval → List Approval
review_row id status rows = elim (take_out (is_open id) rows) [
  | none ↦ rows
  | some (a, rest) ↦ record a { status = status } ∷ rest
]

-- `INSERT … ON CONFLICT (…_id) DO UPDATE`: a known subject keeps its id and its status. The sequence
-- advances either way.
unfoldable pub upsert : String → String → String → Fields → Table Approval → Table Approval
upsert subject_id severity title payload t = record {
  next_id = suc t.next_id;
  rows = elim (take_out (λ a. str_eq a.subject_id subject_id) t.rows) [
    | none ↦
        record {
          approval_id = t.next_id;
          subject_id = subject_id;
          severity = severity;
          title = title;
          status = pending;
          payload = payload;
        }
        ∷ t.rows
    | some (a, rest) ↦ record a { severity = severity; title = title; payload = payload } ∷ rest
  ];
}

abbrev pub too_long : Error
too_long = record { class = other "StringDataRightTruncation"; message = "value too long" }

unfoldable pub ensure_table : Exec (Unit {0})
ensure_table = execute (λ w. w)

-- `…_id VARCHAR(128)`, `severity VARCHAR(20)`.
abbrev pub fits : String → String → Bool
fits subject_id severity = not (ltb 128 (str_len subject_id)) && not (ltb 20 (str_len severity))

-- The statement of `save_pending`.
unfoldable pub save_row : Desk → String → String → String → Fields → Exec (Unit {0})
save_row desk subject_id severity title payload =
    if fits subject_id severity
    then execute
        (λ w. with_table desk (upsert subject_id severity title payload (table_of desk w)) w)
    else do execute (λ w. w); raise too_long

unfoldable pub list_pending : Desk → ℕ → Exec (List Approval)
list_pending desk limit = do
  ensure_table
  query (λ w. take limit (open_rows (table_of desk w).rows))

unfoldable pub get_pending : Desk → ℕ → Exec (Option Approval)
get_pending desk approval_id = do
  ensure_table
  query (λ w. select_open approval_id (table_of desk w).rows)

abbrev pub reviewed : Desk → ℕ → ReviewStatus → World → World
reviewed desk approval_id status w =
    let t = table_of desk w in
    with_table desk (record t { rows = review_row approval_id status t.rows }) w

unfoldable pub mark_reviewed : Desk → ℕ → ReviewStatus → Exec (Unit {0})
mark_reviewed desk approval_id status = do ensure_table; execute (reviewed desk approval_id status)
