-- ===== src/Persistence/Runs/Detections.antt =====
-- src/eset_incident_ai/infrastructure/persistence/detection_collection_run_repository.py
pub mod Triples
pub mod Calm
use eset_incident_ai.Prelude.{ℕ, suc, String, Option, none, some, List, [], ◌∷◌, take, prefix}
use eset_incident_ai.World.{World, Table, DetectionRun, succeeded, running, failed}
use eset_incident_ai.Exec.{Exec, pure, query, execute, ◌>>=◌, ◌>>◌}
use eset_incident_ai.Results.{CollectionResult}

ensure_table : Exec (Unit {0})
ensure_table = execute (λ w. w)

abbrev insert : (ℕ → DetectionRun) → Table DetectionRun → Table DetectionRun
insert row t = record { next_id = suc t.next_id; rows = row t.next_id ∷ t.rows }

abbrev success_row : CollectionResult → Option String → ℕ → DetectionRun
success_row result last_page_token id = record {
  run = record {
    run_id = id;
    status = succeeded;
    collected_count = result.collected_count;
    notified_count = result.notified_count;
    duplicate_skipped_count = result.duplicate_skipped_count;
    pending_approval_count = result.pending_approval_count;
    skipped_count = result.skipped_count;
    observed_keys = result.observed_keys;
    error_message = none;
  };
  last_page_token = last_page_token;
}

abbrev cursor_row : Option String → ℕ → DetectionRun
cursor_row last_page_token id = record {
  run = record {
    run_id = id;
    status = running;
    collected_count = 0;
    notified_count = 0;
    duplicate_skipped_count = 0;
    pending_approval_count = 0;
    skipped_count = 0;
    observed_keys = [];
    error_message = none;
  };
  last_page_token = last_page_token;
}

-- The `INSERT` names no `last_page_token`: the column is NULL.
abbrev failure_row : String → ℕ → DetectionRun
failure_row message id = record {
  run = record {
    run_id = id;
    status = failed;
    collected_count = 0;
    notified_count = 0;
    duplicate_skipped_count = 0;
    pending_approval_count = 0;
    skipped_count = 0;
    observed_keys = [];
    error_message = some (prefix 500 message);
  };
  last_page_token = none;
}

abbrev pub add_success : CollectionResult → Option String → World → World
add_success result token w = record w {
  detection_runs = insert (success_row result token) w.detection_runs;
}

abbrev pub add_cursor : Option String → World → World
add_cursor token w = record w { detection_runs = insert (cursor_row token) w.detection_runs }

abbrev pub add_failure : String → World → World
add_failure message w = record w { detection_runs = insert (failure_row message) w.detection_runs }

unfoldable pub save_success : CollectionResult → Option String → Exec (Unit {0})
unfolding ensure_table
save_success result token = do ensure_table; execute (add_success result token)

unfoldable pub save_cursor : Option String → Exec (Unit {0})
unfolding ensure_table
save_cursor token = do ensure_table; execute (add_cursor token)

unfoldable pub save_failure : String → Exec (Unit {0})
unfolding ensure_table
save_failure message = do ensure_table; execute (add_failure message)

unfoldable pub list_recent : ℕ → Exec (List DetectionRun)
unfolding ensure_table
list_recent limit = do ensure_table; query (λ w. take limit w.detection_runs.rows)

-- `runs[0] if runs else None`.
abbrev pub first : List DetectionRun → Option DetectionRun
first [] = none
first (r ∷ rs) = some r

unfoldable pub latest : Exec (Option DetectionRun)
unfolding list_recent
latest = do runs ← list_recent 1; pure (first runs)

-- `latest_run.last_page_token if latest_run is not None else None`.
abbrev pub token_of : Option DetectionRun → Option String
token_of none = none
token_of (some r) = r.last_page_token
