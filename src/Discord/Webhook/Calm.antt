-- ===== src/Discord/Webhook/Calm.antt =====
-- What sending a message does where no call fails: the webhook accepts it once, at the first attempt.
use eset_incident_ai.Prelude.{◌≡◌, []}
use eset_incident_ai.Value.{Fields}
use eset_incident_ai.World.{World}
use eset_incident_ai.Exec.Quiet.{Quiet, Quiet-call, Quiet-pure, Quiet-catch}
use eset_incident_ai.Discord.Webhook.{Notifier, discord_webhook_client, disabled_notifier, send}
use eset_incident_ai.Discord.Webhook.Triples.{push}

-- The world after a message: a disabled notifier drops it.
abbrev pub sent : Notifier → Fields → World → World
sent discord_webhook_client payload w = push payload w
sent disabled_notifier payload w = w

module _ (w : World) (calm : w.faults ≡ []) where
  pub send-Quiet :
      (n : Notifier) (payload : Fields) → Quiet w (send n payload) tt (sent n payload w)
  unfolding send
  send-Quiet discord_webhook_client payload = Quiet-catch _ _ (Quiet-call w _ calm calm)
  send-Quiet disabled_notifier payload = Quiet-pure w tt calm
