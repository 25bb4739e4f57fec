-- ===== src/Discord/Webhook/Triples.antt =====
-- What sending a message does, under every list of faults. A message whose answer is lost is sent
-- again, so an accepted message can stand in the outbox more than once.
use eset_incident_ai.Prelude.{ℕ, zero, suc, ◌∷◌}
use eset_incident_ai.Value.{Fields}
use eset_incident_ai.World.{World}
use eset_incident_ai.Exec.{Exec}
use eset_incident_ai.Exec.Triple.{Triple, Stable, Triple-call, Triple-pure, Triple-catch}
use eset_incident_ai.Discord.Webhook.{
  Notifier, discord_webhook_client, disabled_notifier, attempts, send,
}

abbrev pub push : Fields → World → World
push payload w = record w { outbox = payload ∷ w.outbox }

module _ {P Q : World → Type 0} where
  attempts-Triple :
      (n : ℕ) (m : Exec (Unit {0})) → Triple P m (λ _. Q) P → Triple P (attempts n m) (λ _. Q) P
  unfolding attempts
  attempts-Triple zero m t = t
  attempts-Triple (suc n) m t = Triple-catch _ _ t (λ _. attempts-Triple n m t)

-- `P` does not mind one more message, and `Q` is what an accepted message adds.
module _ {P Q : World → Type 0} (stable : Stable P) (payload : Fields) where
  pub send_webhook-Triple :
      ((w : World) → P w → Q (push payload w) × P (push payload w))
      → Triple P (send discord_webhook_client payload) (λ _. Q) P
  unfolding send
  send_webhook-Triple h =
      attempts-Triple 3 _ (Triple-call _ stable (λ w p. ((h w p).0, p, (h w p).1)))

module _ {P : World → Type 0} (stable : Stable P) (payload : Fields) where
  -- A predicate that messages do not touch.
  pub send-Triple :
      (n : Notifier)
      → ((w : World) → P w → P (push payload w))
      → Triple P (send n payload) (λ _. P) P
  unfolding send
  send-Triple discord_webhook_client h =
      attempts-Triple 3 _ (Triple-call _ stable (λ w p. (h w p, p, h w p)))
  send-Triple disabled_notifier h = Triple-pure _ (λ w p. p)
