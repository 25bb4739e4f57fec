-- ===== src/Persistence/Runs/Incidents.antt =====
-- src/eset_incident_ai/infrastructure/persistence/collection_run_repository.py
pub mod Triples
use eset_incident_ai.Prelude.{ℕ, suc, String, Option, none, some, List, [], ◌∷◌, take, prefix}
use eset_incident_ai.World.{World, Table, Run, succeeded, failed}
use eset_incident_ai.Exec.{Exec, pure, query, execute, ◌>>=◌, ◌>>◌}
use eset_incident_ai.Results.{CollectionResult}

ensure_table : Exec (Unit {0})
ensure_table = execute (λ w. w)

abbrev insert : (ℕ → Run) → Table Run → Table Run
insert row t = record { next_id = suc t.next_id; rows = row t.next_id ∷ t.rows }

abbrev success_row : CollectionResult → ℕ → Run
success_row result id = record {
  run_id = id;
  status = succeeded;
  collected_count = result.collected_count;
  notified_count = result.notified_count;
  duplicate_skipped_count = result.duplicate_skipped_count;
  pending_approval_count = result.pending_approval_count;
  skipped_count = result.skipped_count;
  observed_keys = result.observed_keys;
  error_message = none;
}

abbrev failure_row : String → ℕ → Run
failure_row message id = record {
  run_id = id;
  status = failed;
  collected_count = 0;
  notified_count = 0;
  duplicate_skipped_count = 0;
  pending_approval_count = 0;
  skipped_count = 0;
  observed_keys = [];
  error_message = some (prefix 500 message);
}

abbrev pub add_success : CollectionResult → World → World
add_success result w = record w { incident_runs = insert (success_row result) w.incident_runs }

abbrev pub add_failure : String → World → World
add_failure message w = record w { incident_runs = insert (failure_row message) w.incident_runs }

unfoldable pub save_success : CollectionResult → Exec (Unit {0})
unfolding ensure_table
save_success result = do ensure_table; execute (add_success result)

unfoldable pub save_failure : String → Exec (Unit {0})
unfolding ensure_table
save_failure message = do ensure_table; execute (add_failure message)

unfoldable pub list_recent : ℕ → Exec (List Run)
unfolding ensure_table
list_recent limit = do ensure_table; query (λ w. take limit w.incident_runs.rows)

-- `runs[0] if runs else None`.
abbrev pub first : List Run → Option Run
first [] = none
first (r ∷ rs) = some r

unfoldable pub latest : Exec (Option Run)
latest = do runs ← list_recent 1; pure (first runs)
