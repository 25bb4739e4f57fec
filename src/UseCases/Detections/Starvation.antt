-- ===== src/UseCases/Detections/Starvation.antt =====
-- A page that holds more detections than a run may take in hand stops the collector for good.
pub mod FullPage
pub mod Runs
use eset_incident_ai.Prelude.{
  ℕ, zero, suc, ◌+◌, ◌-◌, ◌*◌, ◌≤◌, ◌<◌, String, ◌≡◌, refl, sym, ap, ◌∙◌, subst, ◌⊎◌, inl, inr,
  Bool, true, false, Option, none, some, List, [], ◌∷◌, arith, leb, ltb, if◌then◌else◌, Bool-cases,
}
use eset_incident_ai.Value.{Fields}
use eset_incident_ai.Externals.{Externals}
use eset_incident_ai.World.{World, Delivery}
use eset_incident_ai.Exec.{ok, err, pure, query}
use eset_incident_ai.Exec.Quiet.{Quiet, Quiet-pure, Quiet-call, Quiet-bind, Quiet-catch}
use eset_incident_ai.Results.{CollectionResult}
use eset_incident_ai.Domain.Severity.{meets_threshold}
use eset_incident_ai.Discord.Webhook.{Notifier, discord_webhook_client, disabled_notifier}
use eset_incident_ai.Discord.Webhook.Calm.{sent}
use eset_incident_ai.Persistence.Deliveries.{is_delivered}
use eset_incident_ai.Persistence.Runs.Detections.{add_success}
use eset_incident_ai.Persistence.Runs.Detections.Calm.{latest-Quiet, save_success-Quiet}
use eset_incident_ai.UseCases.Detections.{
  Collector, Request, Progress, DetectionPage, idempotency_key, is_stale, notify_detection, visit,
  process_page, collect_pages, advance, start, report, execute_run, execute, cutoff_of,
  microseconds_per_day, observe,
}
use eset_incident_ai.UseCases.Detections.Rules.{cutoff}
use eset_incident_ai.UseCases.Detections.Cursor.{
  stored_token, Settled, too_old, too_low, delivered, Settled-insert_delivery, Settled-marked,
}
use eset_incident_ai.UseCases.Detections.Calm.{
  notify_detection-low, notify_detection-duplicate, notify_detection-new, notified_world, visit-old,
  visit-stop, visit-take,
}
use eset_incident_ai.UseCases.Detections.Starvation.FullPage.{Blocked, in_window, old, stop, take}

module _ (x : Externals) (c : Collector) (cutoff : ℕ) where
  -- Between two worlds: what is settled stays settled, and the run table is the same.
  pub record Later (w w' : World) : Type 0 where
    pub settled :
        (d : Fields) → Settled x c cutoff w.deliveries d → Settled x c cutoff w'.deliveries d
    pub same_runs : w'.detection_runs ≡ w.detection_runs

  Later-refl : (w : World) → Later w w
  Later-refl w = record { settled = λ d s. s; same_runs = refl }

  Later-trans : (w w' w'' : World) → Later w w' → Later w' w'' → Later w w''
  Later-trans w w' w'' f g = record {
    settled = λ d s. g.settled d (f.settled d s);
    same_runs = g.same_runs ∙ f.same_runs;
  }

  Blocked-Later :
      (w w' : World) {room : ℕ} {ds : List Fields}
      → Later w w'
      → Blocked x c cutoff w.deliveries room ds
      → Blocked x c cutoff w'.deliveries room ds
  Blocked-Later w w' f (old d e b) = old d e (Blocked-Later w w' f b)
  Blocked-Later w w' f (stop d e) = stop d e
  Blocked-Later w w' f (take d e s b) = take d e (f.settled d s) (Blocked-Later w w' f b)

  deliveries-sent :
      (n : Notifier) (payload : Fields) (w : World) → (sent n payload w).deliveries ≡ w.deliveries
  deliveries-sent discord_webhook_client payload w = refl
  deliveries-sent disabled_notifier payload w = refl

  detection_runs-sent :
      (n : Notifier) (payload : Fields) (w : World)
      → (sent n payload w).detection_runs ≡ w.detection_runs
  detection_runs-sent discord_webhook_client payload w = refl
  detection_runs-sent disabled_notifier payload w = refl

  Later-notified :
      (d : Fields) (p : Progress) (w : World) (calm : w.faults ≡ [])
      → Later w (notified_world x c d p w calm)
  Later-notified d p w calm = record {
    settled = λ e s. Settled-insert_delivery x c cutoff _ c.destination _ e (rw deliveries-sent s);
    same_runs = detection_runs-sent c.notifier _ w;
  }

  -- One detection in hand: afterwards it is settled.
  notify_detection-settles :
      (d : Fields) (p : Progress) (w : World)
      → w.faults ≡ []
      → (p' : Progress) × (w' : World) × Quiet w (notify_detection x c d p) p' w'
        × Later w w'
        × Settled x c cutoff w'.deliveries d
        × (p'.processed_count ≡ p.processed_count)
        × (p'.last_persistable_page_token ≡ p.last_persistable_page_token)
  notify_detection-settles d p w calm =
      elim (Bool-cases (meets_threshold (c.notification_builder.severity d) c.min_severity)) [
        | inr low ↦
            (_, w, notify_detection-low x c d p w calm low, Later-refl w, too_low low, refl, refl)
        | inl high ↦
            elim (Bool-cases (is_delivered (idempotency_key x c.destination d) w.deliveries)) [
              | inl e ↦ (
                _,
                w,
                notify_detection-duplicate x c d p w calm high e,
                Later-refl w,
                delivered e,
                refl,
                refl,
              )
              | inr e ↦ (
                _,
                notified_world x c d p w calm,
                notify_detection-new x c d p w calm high e,
                Later-notified d p w calm,
                Settled-marked x c cutoff c.destination _ d,
                refl,
                refl,
              )
            ]
      ]

  -- The run stops in the list, and the detections that it took are settled.
  abbrev pub Stops : ℕ → ℕ → List Fields → Progress → World → Type 0
  Stops limit room ds p w =
      (p' : Progress) × (w' : World) × Quiet w (process_page x c limit cutoff ds p) (p', false) w'
      × Later w w'
      × Blocked x c cutoff w'.deliveries room ds
      × (p'.last_persistable_page_token ≡ p.last_persistable_page_token)

  Stops-old :
      (limit room : ℕ) (d : Fields) (ds : List Fields) (p : Progress) (w : World)
      → w.faults ≡ []
      → is_stale x cutoff d ≡ true
      → Stops limit room ds (record (observe x c d p) { skipped_count = p.skipped_count + 1 }) w
      → Stops limit room (d ∷ ds) p w
  unfolding process_page
  Stops-old limit room d ds p w calm e (p', w', q, f, b, t) =
      (p', w', Quiet-bind _ _ (visit-old x c limit cutoff d p w calm e) q, f, old d e b, t)

  -- A page with more in the window than there is room for.
  pub process_page-overfull :
      (limit room : ℕ) (ds : List Fields) (p : Progress) (w : World)
      → w.faults ≡ []
      → p.processed_count + room ≡ limit
      → room < in_window x c cutoff ds
      → Stops limit room ds p w
  unfolding process_page
  process_page-overfull limit room [] p w calm left more = absurd (omega arith)
  process_page-overfull limit zero (d ∷ ds) p w calm left more =
      elim (Bool-cases (is_stale x cutoff d)) [
        | inl e ↦
            Stops-old limit zero d ds p w calm e
              (process_page-overfull limit zero ds _ w calm left (ground (arith, e)))
        | inr e ↦ (
          observe x c d p,
          w,
          Quiet-bind _ _ (visit-stop x c limit cutoff d p w calm e (ground arith))
              (Quiet-pure w _ calm),
          Later-refl w,
          stop d e,
          refl,
        )
      ]
  process_page-overfull limit (suc room) (d ∷ ds) p w calm left more =
      elim (Bool-cases (is_stale x cutoff d)) [
        | inl e ↦
            Stops-old limit (suc room) d ds p w calm e
              (process_page-overfull limit (suc room) ds _ w calm left (ground (arith, e)))
        | inr e ↦
            let (p1, w1, q1, f1, s1, k1, t1) =
              notify_detection-settles d
                (record (observe x c d p) { processed_count = p.processed_count + 1 }) w calm in
            let (p', w', q, f, b, t) =
              process_page-overfull limit room ds p1 w1 q1.calm_after (omega arith)
                (ground (arith, e)) in
            (
              p',
              w',
              Quiet-bind _ _ (visit-take x c limit cutoff d p w calm e (ground arith) q1) q,
              Later-trans w w1 w' f1 f,
              take d e (f.settled d s1) b,
              t ∙ t1,
            )
      ]
