-- ===== src/UseCases/Detections/Muted.antt =====
-- The collector with the notifier that drops its messages: nothing is sent, and keys are marked.
use eset_incident_ai.Prelude.{
  ℕ, ◌≡◌, refl, sym, subst, String, Bool, true, false, Option, none, some, List,
}
use eset_incident_ai.Value.{Fields}
use eset_incident_ai.Externals.{Externals}
use eset_incident_ai.World.{World}
use eset_incident_ai.Exec.Triple.{Triple, Post, Post-both, Triple-pure, Triple-bind, Triple-weaken}
use eset_incident_ai.Discord.Webhook.{disabled_notifier, send}
use eset_incident_ai.Persistence.Deliveries.Growth.{Grown}
use eset_incident_ai.Persistence.Deliveries.Once.{KeysDiffer}
use eset_incident_ai.Persistence.Runs.Detections.Triples.{save_cursor-Triple}
use eset_incident_ai.UseCases.Detections.{
  Collector, Request, Progress, notify_detection, process_page, advance, execute,
}
use eset_incident_ai.UseCases.Detections.Rules.{
  Branch, Branch-both, cutoff, notify_detection-Triple, visit-Triple, process_page-Triple,
  collect_pages-Triple, execute_run-Triple, execute-Triple,
}
use eset_incident_ai.UseCases.Detections.Safety.{Accounted, execute_accounts}

module _ (x : Externals) (c : Collector) (r : Request) (muted : c.notifier ≡ disabled_notifier)
    (messages : List Fields) where
  abbrev pub Silent : World → Type 0
  Silent w = w.outbox ≡ messages

  send-Silent : (payload : Fields) → Triple Silent (send c.notifier payload) (λ _. Silent) Silent
  unfolding send
  send-Silent payload =
      subst (λ n. Triple Silent (send n payload) (λ _. Silent) Silent) (sym muted)
        (Triple-pure _ (λ w h. h))

  notify_detection-Silent :
      (d : Fields) (p : Progress) → Triple Silent (notify_detection x c d p) (λ _. Silent) Silent
  notify_detection-Silent d p =
      notify_detection-Triple x c d p {P = Silent} {S = Silent} (λ w fs h. h) (λ w fs h. h)
        (λ w h. h) (λ w h. h) (λ w h e. h) (λ w h e. h)
        (λ analysis. Triple-weaken _ (send-Silent _) (λ w h. h.0) (λ a w h. h) (λ w h. h))
        (λ w h. (h, h))

  process_page-Silent :
      (limit cutoff : ℕ) (ds : List Fields) (p : Progress)
      → Triple Silent
          (process_page x c limit cutoff ds p)
          (λ s w. Branch s.1 (Silent w) (Silent w))
          Silent
  process_page-Silent limit cutoff =
      process_page-Triple x c limit cutoff (λ _ p. Silent) (λ p. Silent)
        (λ d ds p.
          visit-Triple x c limit cutoff d p (λ p. Silent) (λ _ w h. h) (λ _ _ w h. h)
            (λ _ _. notify_detection-Silent d _))

  advance-Silent :
      (completed : Bool) (token : Option String) (p : Progress)
      → Triple
          (λ w. Branch completed (Silent w) (Silent w))
          (advance x c r.limit completed token p)
          (λ s w. Branch s.1 (Silent w) (Silent w))
          Silent
  unfolding advance
  advance-Silent true none p = Triple-pure _ (λ w h. h)
  advance-Silent false none p = Triple-pure _ (λ w h. h)
  advance-Silent false (some token) p = Triple-pure _ (λ w h. h)
  advance-Silent true (some token) p =
      Triple-bind _ _
        (save_cursor-Triple {Q = Silent} (λ w fs h. h) (λ w h. h) (some token) (λ w h. (h, h)))
        (λ _. Triple-pure _ (λ w h. Branch-both _ h))

  execute-Silent : Triple Silent (execute x c r) (λ _. Silent) Silent
  execute-Silent =
      execute-Triple x c r (λ w fs h. h) (λ w message h. h)
        (execute_run-Triple x c r Silent (λ p. Silent) (λ p. Silent) (λ w fs h. h) (λ p w fs h. h)
          (λ w h. h) (λ w p h. h) (λ w p h. h) (λ w h. h)
          (λ p.
            collect_pages-Triple x c r (cutoff c r) (λ p. Silent) (λ p. Silent)
              (λ page s w. Branch s.1 (Silent w) (Silent w)) (λ p w fs h. h) (λ w p h. (h, h))
              (λ p. process_page-Silent r.limit (cutoff c r) _ _)
              (λ page p completed. advance-Silent completed page.next_page_token p)
              r.max_pages_per_run p)
          (λ p w h. (h, h)))

-- Whatever the external calls do, with the disabled notifier and from a delivery table without a
-- repeated key: no message reaches the channel, whether the run returns or raises. If it returns, it has
-- marked as many new keys as delivered as it reports notified; no delivered key is lost.
pub execute-mutes :
    (x : Externals) (c : Collector) (r : Request) (w : World)
    → c.notifier ≡ disabled_notifier
    → KeysDiffer w.deliveries
    → Post
        (λ res w'. Accounted w.deliveries r.limit res w'.deliveries × (w'.outbox ≡ w.outbox))
        (λ w'. Grown w.deliveries w'.deliveries × (w'.outbox ≡ w.outbox))
        (execute x c r w).0
        (execute x c r w).1
execute-mutes x c r w muted h =
    Post-both _ _ _ _ (execute x c r w).0 (execute x c r w).1 (execute_accounts x c r w h)
      ((execute-Silent x c r muted w.outbox).at w refl)
