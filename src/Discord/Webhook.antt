-- ===== src/Discord/Webhook.antt =====
-- src/eset_incident_ai/infrastructure/discord/webhook_client.py, and the notifier that
-- src/eset_incident_ai/api/dependencies.py puts in its place where Discord is disabled.
pub mod Triples
pub mod Calm
use eset_incident_ai.Prelude.{ℕ, zero, suc, ◌∷◌}
use eset_incident_ai.Value.{Fields}
use eset_incident_ai.Exec.{Exec, pure, catch, execute}

-- `tenacity.retry(stop=stop_after_attempt(n + 1), reraise=True)`: every exception is retried, and
-- the last one is raised. The waits between two attempts change nothing.
unfoldable pub attempts {ℓ} : {A : Type ℓ} → ℕ → Exec A → Exec A
attempts zero m = m
attempts (suc n) m = catch m (λ _. attempts n m)

-- The `POST`. Any status but 200 and 204 raises, as an error of the transport does.
unfoldable pub post : Fields → Exec (Unit {0})
post payload = execute (λ w. record w { outbox = payload ∷ w.outbox })

pub data Notifier : Type 0 where
  discord_webhook_client disabled_notifier : Notifier

unfoldable pub send : Notifier → Fields → Exec (Unit {0})
unfolding attempts post
send discord_webhook_client payload = attempts 3 (post payload)
send disabled_notifier payload = pure tt
