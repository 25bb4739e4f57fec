-- ===== src/Tests/Detections.antt =====
-- Runs of the detection collector, and its theorems at them.
use eset_incident_ai.Prelude.{◌≡◌, refl, none, [], ◌∷◌}
use eset_incident_ai.World.{World, Error, works, fails, fails_late, other}
use eset_incident_ai.Exec.{ok, err}
use eset_incident_ai.Results.{CollectionResult}
use eset_incident_ai.Persistence.Runs.Detections.{add_failure}
use eset_incident_ai.Tests.Fixtures.{plain, alert, collector, request, world}
use eset_incident_ai.Tests.Machine.{collector_code}
use eset_incident_ai.UseCases.Ports.{safe_error_message}
use eset_incident_ai.UseCases.Detections.{Collector, execute_run, execute}
use eset_incident_ai.UseCases.Detections.Rules.{cutoff}
use eset_incident_ai.UseCases.Detections.Cursor.{stored_token, Passed, execute-Passed_cursor}
use eset_incident_ai.UseCases.Detections.Failures.{execute-failure_resets_cursor}

abbrev all_result : CollectionResult
all_result = record {
  collected_count = 5;
  notified_count = 3;
  duplicate_skipped_count = 0;
  pending_approval_count = 0;
  skipped_count = 2;
  observed_keys = "occurTime" ∷ "severityLevel" ∷ "uuid" ∷ [];
}

-- A run with room for all: three messages, two detections skipped.
all_done : (execute plain collector (request 10) (world [])).0 ≡ ok all_result
unfolding collector_code
all_done = refl

-- The second message is refused four times, and the run fails.
abbrev refused : Error
refused = record { class = other "ConnectError"; message = "no route" }

abbrev faulty : World
faulty = world (
    works
    ∷ works
    ∷ works
    ∷ works
    ∷ works
    ∷ works
    ∷ works
    ∷ works
    ∷ works
    ∷ works
    ∷ fails refused
    ∷ fails refused
    ∷ fails_late refused
    ∷ fails refused
    ∷ [])

abbrev after_refusal : World
after_refusal = (execute_run plain collector (request 10) faulty).1

refused_run : execute_run plain collector (request 10) faulty ≡ (err refused, after_refusal)
unfolding collector_code
refused_run = refl

no_more_faults : after_refusal.faults ≡ []
unfolding collector_code
no_more_faults = refl

execute-failure_resets_cursor_example :
    (execute plain collector (request 10) faulty
      ≡ (err refused, add_failure (safe_error_message refused) after_refusal))
    × (stored_token (execute plain collector (request 10) faulty).1 ≡ none)
execute-failure_resets_cursor_example =
    execute-failure_resets_cursor plain collector (request 10) faulty after_refusal refused
      refused_run no_more_faults

execute-Passed_cursor_example :
    Passed plain collector
      (cutoff collector (request 10))
      1000
      (execute plain collector (request 10) (world [])).1.deliveries
      none
      (stored_token (execute plain collector (request 10) (world [])).1)
execute-Passed_cursor_example =
    execute-Passed_cursor plain collector (request 10) (world []) {res = all_result} all_done

-- One page of three detections in the window, and a limit of two.
abbrev full_collector : Collector
full_collector = record collector {
  get_detection_page = λ token size. record {
    detections = alert "a" ∷ alert "b" ∷ alert "c" ∷ [];
    next_page_token = none;
  };
}

abbrev first_run : World
first_run = (execute plain full_collector (request 2) (world [])).1
