-- ===== src/Persistence/Deliveries.antt =====
-- src/eset_incident_ai/infrastructure/persistence/notification_repository.py: which notifications
-- have been delivered, by idempotency key.
pub mod Once
pub mod Growth
pub mod Triples
pub mod Calm
pub mod Refines
use eset_incident_ai.Prelude.{String, Bool, List, [], ◌∷◌, any, str_eq, if◌then◌else◌}
use eset_incident_ai.World.{World, Delivery}
use eset_incident_ai.Exec.{Exec, query, execute, ◌>>=◌, ◌>>◌}

unfoldable pub ensure_table : Exec (Unit {0})
ensure_table = execute (λ w. w)

-- `SELECT 1 FROM notification_deliveries WHERE idempotency_key = %s LIMIT 1`.
unfoldable pub is_delivered : String → List Delivery → Bool
is_delivered key ds = any (λ d. str_eq d.idempotency_key key) ds

unfoldable pub was_delivered : String → Exec Bool
was_delivered key = do ensure_table; query (λ w. is_delivered key w.deliveries)

-- `INSERT … ON CONFLICT (idempotency_key) DO NOTHING`.
unfoldable pub insert_delivery : String → String → List Delivery → List Delivery
insert_delivery key destination ds =
    if is_delivered key ds
    then ds
    else record { idempotency_key = key; destination = destination } ∷ ds

unfoldable pub mark_delivered : String → String → Exec (Unit {0})
mark_delivered key destination = do
  ensure_table
  execute (λ w. record w { deliveries = insert_delivery key destination w.deliveries })
