-- ===== src/Persistence/Deliveries/Calm.antt =====
-- What the two operations of the delivery table do where no call fails.
use eset_incident_ai.Prelude.{String, ◌≡◌, []}
use eset_incident_ai.World.{World}
use eset_incident_ai.Exec.Quiet.{Quiet, Quiet-call, Quiet-bind}
use eset_incident_ai.Persistence.Deliveries.{
  ensure_table, is_delivered, was_delivered, mark_delivered,
}
use eset_incident_ai.Persistence.Deliveries.Triples.{add_delivery}

module _ (w : World) (calm : w.faults ≡ []) where
  pub was_delivered-Quiet :
      (key : String) → Quiet w (was_delivered key) (is_delivered key w.deliveries) w
  unfolding was_delivered ensure_table
  was_delivered-Quiet key = Quiet-bind _ _ (Quiet-call w _ calm calm) (Quiet-call w _ calm calm)

  pub mark_delivered-Quiet :
      (key destination : String)
      → Quiet w (mark_delivered key destination) tt (add_delivery key destination w)
  unfolding mark_delivered ensure_table
  mark_delivered-Quiet key destination =
      Quiet-bind _ _ (Quiet-call w _ calm calm) (Quiet-call w _ calm calm)
