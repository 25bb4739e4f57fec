-- ===== src/UseCases/Detections/Calm.antt =====
-- One detection and one page where no call fails.
use eset_incident_ai.Prelude.{
  ℕ, ◌+◌, String, ◌≡◌, inl, inr, true, false, Option, none, some, [], arith, leb, ltb, ◌*◌, ◌≤◌,
  Bool-cases,
}
use eset_incident_ai.Value.{Fields}
use eset_incident_ai.Externals.{Externals}
use eset_incident_ai.World.{World}
use eset_incident_ai.Exec.Quiet.{Quiet, Quiet-pure, Quiet-call, Quiet-bind, Quiet-catch}
use eset_incident_ai.Domain.Severity.{Severity, meets_threshold}
use eset_incident_ai.Domain.Analysis.{IncidentAnalysisResult}
use eset_incident_ai.Discord.Webhook.{Notifier, discord_webhook_client, disabled_notifier}
use eset_incident_ai.Discord.Webhook.Calm.{sent, send-Quiet}
use eset_incident_ai.Persistence.Deliveries.{is_delivered}
use eset_incident_ai.Persistence.Deliveries.Triples.{add_delivery}
use eset_incident_ai.Persistence.Deliveries.Calm.{was_delivered-Quiet, mark_delivered-Quiet}
use eset_incident_ai.UseCases.Ports.{Analyzer, analyze_incident}
use eset_incident_ai.UseCases.Detections.{
  Collector, Request, Progress, cutoff_of, microseconds_per_day, idempotency_key, is_stale,
  analyze_with, analyze_detection, to_analysis_incident, notify_detection, observe, visit,
}
use eset_incident_ai.UseCases.Detections.Rules.{cutoff}

-- The analysis that accompanies a message.
abbrev pub analysis_of :
    Externals → Option Analyzer → Fields → Severity → Option IncidentAnalysisResult
analysis_of x none d s = none
analysis_of x (some a) d s =
    let i = to_analysis_incident x d s in some (a.analyze i (a.search i.title "default" 10))

analyze_with-Quiet :
    (x : Externals) (o : Option Analyzer) (d : Fields) (s : Severity) (w : World)
    → w.faults ≡ []
    → Quiet w (analyze_with x o d s) (analysis_of x o d s) w
unfolding analyze_with analyze_incident
analyze_with-Quiet x none d s w calm = Quiet-pure w none calm
analyze_with-Quiet x (some a) d s w calm = Quiet-catch _ _ (
    Quiet-bind _ _ (Quiet-bind _ _ (Quiet-call w _ calm calm) (Quiet-call w _ calm calm))
      (Quiet-pure w _ calm))

sent-calm :
    (n : Notifier) (payload : Fields) (w : World) → w.faults ≡ [] → (sent n payload w).faults ≡ []
sent-calm discord_webhook_client payload w h = h
sent-calm disabled_notifier payload w h = h

module _ (x : Externals) (c : Collector) (d : Fields) (p : Progress) (w : World)
    (calm : w.faults ≡ []) where
  abbrev severity : Severity
  severity = c.notification_builder.severity d

  abbrev key : String
  key = idempotency_key x c.destination d

  -- The world after the message for the detection is sent and its key marked.
  abbrev pub notified_world : World
  notified_world =
      add_delivery key c.destination
        (sent c.notifier (c.notification_builder.build d (analysis_of x c.analyzer d severity)) w)

  pub notify_detection-low :
      meets_threshold severity c.min_severity ≡ false
      → Quiet w (notify_detection x c d p) (record p { skipped_count = p.skipped_count + 1 }) w
  unfolding notify_detection
  notify_detection-low e = rw e (Quiet-pure w _ calm)

  pub notify_detection-duplicate :
      meets_threshold severity c.min_severity ≡ true
      → is_delivered key w.deliveries ≡ true
      → Quiet w
          (notify_detection x c d p)
          (record p { duplicate_skipped_count = p.duplicate_skipped_count + 1 })
          w
  unfolding notify_detection
  notify_detection-duplicate e f =
      rw e (Quiet-bind _ _ (was_delivered-Quiet w calm key) (rw f (Quiet-pure w _ calm)))

  pub notify_detection-new :
      meets_threshold severity c.min_severity ≡ true
      → is_delivered key w.deliveries ≡ false
      → Quiet w
          (notify_detection x c d p)
          (record p { notified_count = p.notified_count + 1 })
          notified_world
  unfolding notify_detection analyze_detection
  notify_detection-new e f = rw e (
      Quiet-bind _ _ (was_delivered-Quiet w calm key) (
        rw f (
          Quiet-bind _ _ (analyze_with-Quiet x c.analyzer d severity w calm) (
            Quiet-bind _ _ (send-Quiet w calm c.notifier _) (
              Quiet-bind _ _
                (mark_delivered-Quiet _ (sent-calm c.notifier _ w calm) key c.destination)
                (Quiet-pure notified_world _ (sent-calm c.notifier _ w calm)))))))

module _ (x : Externals) (c : Collector) (limit cutoff : ℕ) (d : Fields) (p : Progress) (w : World)
    (calm : w.faults ≡ []) where
  pub visit-old :
      is_stale x cutoff d ≡ true
      → Quiet w
          (visit x c limit cutoff d p)
          (record (observe x c d p) { skipped_count = p.skipped_count + 1 }, true)
          w
  unfolding visit
  visit-old e = rw e (Quiet-pure w _ calm)

  pub visit-stop :
      is_stale x cutoff d ≡ false
      → leb limit p.processed_count ≡ true
      → Quiet w (visit x c limit cutoff d p) (observe x c d p, false) w
  unfolding visit
  visit-stop e f = rw (e, f) (Quiet-pure w _ calm)

  pub visit-take :
      {p' : Progress} {w' : World}
      → is_stale x cutoff d ≡ false
      → leb limit p.processed_count ≡ false
      → Quiet w
          (notify_detection x c d
            (record (observe x c d p) { processed_count = p.processed_count + 1 }))
          p'
          w'
      → Quiet w (visit x c limit cutoff d p) (p', true) w'
  unfolding visit
  visit-take {p'} {w'} e f q = rw (e, f) (Quiet-bind _ _ q (Quiet-pure w' _ q.calm_after))

-- A window that begins after year 1 is a date.
pub cutoff_of-Quiet :
    (c : Collector) (r : Request) (w : World)
    → w.faults ≡ []
    → r.backfill_window_days * microseconds_per_day ≤ c.now
    → Quiet w (cutoff_of c.now r.backfill_window_days) (cutoff c r) w
unfolding cutoff_of
cutoff_of-Quiet c r w calm dated =
    elim (Bool-cases (ltb c.now (r.backfill_window_days * microseconds_per_day))) [
      | inl e ↦ absurd (ground (arith, e))
      | inr e ↦ rw e (Quiet-pure w _ calm)
    ]
