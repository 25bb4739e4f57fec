-- ===== src/UseCases/Detections/Failures.antt =====
-- What a run that fails leaves behind.
use eset_incident_ai.Prelude.{◌≡◌, ◌∙◌, none, [], ap}
use eset_incident_ai.Externals.{Externals}
use eset_incident_ai.World.{World, Error}
use eset_incident_ai.Exec.{Outcome, err}
use eset_incident_ai.Exec.Quiet.{Quiet, Quiet-catch, catch-err, bind-ok, raise_lem}
use eset_incident_ai.Results.{CollectionResult}
use eset_incident_ai.Persistence.Runs.Detections.Calm.{save_failure-Quiet}
use eset_incident_ai.Persistence.Runs.Detections.{save_failure, add_failure}
use eset_incident_ai.UseCases.Ports.{safe_error_message}
use eset_incident_ai.UseCases.Detections.{Collector, Request, execute_run, record_failure, execute}
use eset_incident_ai.UseCases.Detections.Cursor.{stored_token}

-- When a run fails with `e` and the failure can be recorded, the exception is raised again, the run
-- table gets one row with the text of the exception and nothing else changes; and the cursor of the
-- next run is `None`, whatever pages the table had recorded as passed.
pub execute-failure_resets_cursor :
    (x : Externals) (c : Collector) (r : Request) (w w' : World) (e : Error)
    → execute_run x c r w ≡ (err e, w')
    → w'.faults ≡ []
    → (execute x c r w ≡ (err e, add_failure (safe_error_message e) w'))
      × (stored_token (execute x c r w).1 ≡ none)
unfolding execute record_failure
execute-failure_resets_cursor x c r w w' e h calm =
    (run, ap (λ (o : Outcome CollectionResult × World). stored_token o.1) run)
  where
    saved :
        Quiet w' (save_failure (safe_error_message e)) tt (add_failure (safe_error_message e) w')
    saved = save_failure-Quiet w' calm (safe_error_message e)

    run : execute x c r w ≡ (err e, add_failure (safe_error_message e) w')
    run =
        catch-err (execute_run x c r) _ w w' e h
        ∙ bind-ok _ _ w' (add_failure (safe_error_message e) w') tt (Quiet-catch _ _ saved).runs
        ∙ raise_lem e _
