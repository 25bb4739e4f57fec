-- ===== src/Persistence/Runs/Detections/Calm.antt =====
-- What the operations on `detection_collection_runs` do where no call fails.
use eset_incident_ai.Prelude.{String, ◌≡◌, Option, [], take}
use eset_incident_ai.World.{World}
use eset_incident_ai.Exec.Quiet.{Quiet, Quiet-call, Quiet-bind, Quiet-pure}
use eset_incident_ai.Results.{CollectionResult}
use eset_incident_ai.Persistence.Runs.Detections.{
  ensure_table, add_success, add_cursor, add_failure, save_success, save_cursor, save_failure,
  latest, first,
}

module _ (w : World) (calm : w.faults ≡ []) where
  pub save_success-Quiet :
      (result : CollectionResult) (token : Option String)
      → Quiet w (save_success result token) tt (add_success result token w)
  unfolding save_success ensure_table
  save_success-Quiet result token =
      Quiet-bind _ _ (Quiet-call w _ calm calm) (Quiet-call w _ calm calm)

  pub save_cursor-Quiet :
      (token : Option String) → Quiet w (save_cursor token) tt (add_cursor token w)
  unfolding save_cursor ensure_table
  save_cursor-Quiet token = Quiet-bind _ _ (Quiet-call w _ calm calm) (Quiet-call w _ calm calm)

  pub save_failure-Quiet :
      (message : String) → Quiet w (save_failure message) tt (add_failure message w)
  unfolding save_failure ensure_table
  save_failure-Quiet message = Quiet-bind _ _ (Quiet-call w _ calm calm) (Quiet-call w _ calm calm)

  pub latest-Quiet : Quiet w latest (first (take 1 w.detection_runs.rows)) w
  unfolding latest ensure_table
  latest-Quiet =
      Quiet-bind _ _ (Quiet-bind _ _ (Quiet-call w _ calm calm) (Quiet-call w _ calm calm))
        (Quiet-pure w _ calm)
