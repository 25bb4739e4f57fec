-- ===== src/UseCases/Detections/Returns.antt =====
-- A run in which no call fails comes back with a result, and each notification is one message.
use eset_incident_ai.Prelude.{◌+◌, ◌≡◌, Bool, length}
use eset_incident_ai.Externals.{Externals}
use eset_incident_ai.World.{World}
use eset_incident_ai.Exec.{Exec}
use eset_incident_ai.Exec.Quiet.{Quiet}
use eset_incident_ai.Discord.Webhook.{discord_webhook_client}
use eset_incident_ai.UseCases.Detections.{Collector, Progress}

abbrev by_pair : Progress × Bool → Progress
by_pair r = r.0

abbrev itself : Progress → Progress
itself p = p

module _ (x : Externals) (c : Collector) (webhook : c.notifier ≡ discord_webhook_client) where
  -- The coroutine returns, and what it adds to the outbox is what it adds to `notified_count`.
  abbrev Counted : {A : Type 0} → (A → Progress) → Exec A → Progress → World → Type 0
  Counted {A} progress m p w =
      (a : A) × (w' : World) × Quiet w m a w'
      × (length w'.outbox + p.notified_count ≡ length w.outbox + (progress a).notified_count)
