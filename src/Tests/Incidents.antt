-- ===== src/Tests/Incidents.antt =====
-- A run of the incident collector, and its theorem at it.
use eset_incident_ai.Prelude.{none, [], ◌∷◌}
use eset_incident_ai.World.{Error, works, fails, other}
use eset_incident_ai.Exec.Triple.{Post}
use eset_incident_ai.Domain.Severity.{medium}
use eset_incident_ai.Discord.Webhook.{discord_webhook_client}
use eset_incident_ai.Persistence.Deliveries.Growth.{Grown}
use eset_incident_ai.Tests.Fixtures.{plain, builder, detection, alert, world}
use eset_incident_ai.UseCases.Incidents.{Collector, execute}
use eset_incident_ai.UseCases.Incidents.Safety.{Accounted, execute_accounts_incidents}

abbrev incident_collector : Collector
incident_collector = record {
  iter_incidents = λ after size.
      (alert "a" ∷ detection "b" "low" "2026-06-01" ∷ []) ∷ (alert "a" ∷ alert "c" ∷ []) ∷ [];
  notification_builder = builder;
  notifier = discord_webhook_client;
  analyzer = none;
  destination = "discord";
  min_severity = medium;
}

abbrev lost : Error
lost = record { class = other "ReadTimeout"; message = "timed out" }

execute_accounts_incidents_example :
    Post
      (λ res w'. Accounted [] 3 res w'.deliveries)
      (λ w'. Grown [] w'.deliveries)
      (execute plain incident_collector 3 none (world (works ∷ works ∷ fails lost ∷ []))).0
      (execute plain incident_collector 3 none (world (works ∷ works ∷ fails lost ∷ []))).1
execute_accounts_incidents_example =
    execute_accounts_incidents plain incident_collector 3 none
      (world (works ∷ works ∷ fails lost ∷ [])) tt
