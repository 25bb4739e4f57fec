-- ===== src/Tests/Deliveries.antt =====
-- Calls of the delivery table, one of which takes effect and is not answered.
use eset_incident_ai.Prelude.{◌≡◌, refl, true, false, List, [], ◌∷◌}
use eset_incident_ai.World.{World, Error, other, works, fails_late}
use eset_incident_ai.Persistence.Deliveries.{
  is_delivered, was_delivered, mark_delivered, insert_delivery, ensure_table,
}
use eset_incident_ai.Exec.{◌>>=◌, call}
use eset_incident_ai.Persistence.Deliveries.Refines.{
  Command, mark, ask, known, failed, Steps, keys_of, perform_all, perform_all-Steps,
}
use eset_incident_ai.Tests.Fixtures.{world}

abbrev timeout : Error
timeout = record { class = other "TimeoutError"; message = "" }

abbrev calls : List Command
calls = ask "a" ∷ mark "a" "discord" ∷ ask "a" ∷ []

abbrev late : World
late = world (works ∷ works ∷ works ∷ fails_late timeout ∷ [])

answers : (perform_all calls late).0 ≡ known false ∷ failed timeout ∷ known true ∷ []
unfolding mark_delivered was_delivered ensure_table is_delivered insert_delivery ◌>>=◌ call
answers = refl

perform_all-Steps_example :
    Steps calls (keys_of late) (perform_all calls late).0 (keys_of (perform_all calls late).1)
perform_all-Steps_example = perform_all-Steps calls late
