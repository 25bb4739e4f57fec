-- ===== src/UseCases/Detections/Starvation/FullPage.antt =====
-- A page whose detections use up the limit: what a run does on it.
use eset_incident_ai.Prelude.{
  ℕ, zero, suc, ◌+◌, ◌≡◌, refl, ◌∙◌, inl, inr, true, false, List, [], ◌∷◌, arith, if◌then◌else◌,
  Bool-cases,
}
use eset_incident_ai.Value.{Fields}
use eset_incident_ai.Externals.{Externals}
use eset_incident_ai.World.{World, Delivery}
use eset_incident_ai.Exec.Quiet.{Quiet, Quiet-pure, Quiet-bind}
use eset_incident_ai.Domain.Severity.{meets_threshold}
use eset_incident_ai.UseCases.Detections.{
  Collector, Progress, is_stale, notify_detection, process_page, observe,
}
use eset_incident_ai.UseCases.Detections.Rules.{cutoff}
use eset_incident_ai.UseCases.Detections.Cursor.{Settled, too_old, too_low, delivered}
use eset_incident_ai.UseCases.Detections.Calm.{
  notify_detection-low, notify_detection-duplicate, visit-old, visit-stop, visit-take,
}

module _ (x : Externals) (c : Collector) where
  -- How many detections of a page are not too old.
  abbrev pub in_window : ℕ → List Fields → ℕ
  in_window cutoff [] = 0
  in_window cutoff (d ∷ ds) =
      let rest = in_window cutoff ds in if is_stale x cutoff d then rest else suc rest

  -- With room for `room` more, the run takes settled detections only and stops within the list.
  pub data Blocked (cutoff : ℕ) (now : List Delivery) : ℕ → List Fields → Type 0 where
    old :
        {room : ℕ} {ds : List Fields} (d : Fields)
        → is_stale x cutoff d ≡ true
        → Blocked cutoff now room ds
        → Blocked cutoff now room (d ∷ ds)
    stop :
        {ds : List Fields} (d : Fields)
        → is_stale x cutoff d ≡ false
        → Blocked cutoff now zero (d ∷ ds)
    take :
        {room : ℕ} {ds : List Fields} (d : Fields)
        → is_stale x cutoff d ≡ false
        → Settled x c cutoff now d
        → Blocked cutoff now room ds
        → Blocked cutoff now (suc room) (d ∷ ds)

  -- What a round leaves of the counters that matter here.
  pub record Idle (p p' : Progress) : Type 0 where
    pub notified : p'.notified_count ≡ p.notified_count
    pub persistable : p'.last_persistable_page_token ≡ p.last_persistable_page_token

module _ (x : Externals) (c : Collector) (limit cutoff : ℕ) (w : World) (calm : w.faults ≡ []) where
  -- A settled detection changes nothing.
  notify_detection-Settled :
      (d : Fields) (p : Progress)
      → is_stale x cutoff d ≡ false
      → Settled x c cutoff w.deliveries d
      → (p' : Progress) × Quiet w (notify_detection x c d p) p' w
        × Idle x c p p'
        × (p'.processed_count ≡ p.processed_count)
  notify_detection-Settled d p fresh (too_old e) = absurd (cc)
  notify_detection-Settled d p fresh (too_low e) = (
    _,
    notify_detection-low x c d p w calm e,
    record { notified = refl; persistable = refl },
    refl,
  )
  notify_detection-Settled d p fresh (delivered e) =
      elim (Bool-cases (meets_threshold (c.notification_builder.severity d) c.min_severity)) [
        | inl high ↦ (
          _,
          notify_detection-duplicate x c d p w calm high e,
          record { notified = refl; persistable = refl },
          refl,
        )
        | inr low ↦ (
          _,
          notify_detection-low x c d p w calm low,
          record { notified = refl; persistable = refl },
          refl,
        )
      ]

  pub process_page-Blocked :
      {room : ℕ} {ds : List Fields} (p : Progress)
      → p.processed_count + room ≡ limit
      → Blocked x c cutoff w.deliveries room ds
      → (p' : Progress) × Quiet w (process_page x c limit cutoff ds p) (p', false) w × Idle x c p p'
  unfolding process_page
  process_page-Blocked p room_left (old d e b) =
      let (p', q, i) = process_page-Blocked _ room_left b in
      (
        p',
        Quiet-bind _ _ (visit-old x c limit cutoff d p w calm e) q,
        record { notified = i.notified; persistable = i.persistable },
      )
  process_page-Blocked p room_left (stop d e) = (
    _,
    Quiet-bind _ _ (visit-stop x c limit cutoff d p w calm e (ground arith)) (Quiet-pure w _ calm),
    record { notified = refl; persistable = refl },
  )
  process_page-Blocked p room_left (take d e s b) =
      let (p1, q1, i1, k) =
        notify_detection-Settled d
          (record (observe x c d p) { processed_count = p.processed_count + 1 }) e s in
      let (p', q, i) = process_page-Blocked p1 (omega arith) b in
      (
        p',
        Quiet-bind _ _ (visit-take x c limit cutoff d p w calm e (ground arith) q1) q,
        record {
          notified = i.notified ∙ i1.notified;
          persistable = i.persistable ∙ i1.persistable;
        },
      )
