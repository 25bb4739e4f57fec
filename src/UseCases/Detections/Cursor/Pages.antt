-- ===== src/UseCases/Detections/Cursor/Pages.antt =====
-- Detections with nothing left to do, and the pages that a cursor has passed.
use eset_incident_ai.Prelude.{
  ℕ, String, ◌≡◌, true, false, Option, some, List, [], ◌∷◌, arith, All, take, eq_refl,
}
use eset_incident_ai.Value.{Fields}
use eset_incident_ai.Externals.{Externals}
use eset_incident_ai.World.{World, Delivery}
use eset_incident_ai.Domain.Severity.{meets_threshold}
use eset_incident_ai.Persistence.Deliveries.{is_delivered, insert_delivery}
use eset_incident_ai.Persistence.Deliveries.Once.{is_delivered-insert_delivery}
use eset_incident_ai.Persistence.Runs.Detections.{first, token_of}
use eset_incident_ai.UseCases.Detections.{Collector, idempotency_key, is_stale}

-- The token from which the next run starts.
abbrev pub stored_token : World → Option String
stored_token w = token_of (first (take 1 w.detection_runs.rows))

module _ (x : Externals) (c : Collector) where
  -- Nothing is left to do for the detection: it is too old, below the threshold, or delivered.
  pub data Settled (cutoff : ℕ) (now : List Delivery) (d : Fields) : Type 0 where
    too_old : is_stale x cutoff d ≡ true → Settled cutoff now d
    too_low :
        meets_threshold (c.notification_builder.severity d) c.min_severity ≡ false
        → Settled cutoff now d
    delivered : is_delivered (idempotency_key x c.destination d) now ≡ true → Settled cutoff now d

  -- From one token to another by pages of which every detection is settled.
  pub data Passed (cutoff page_size : ℕ) (now : List Delivery) (from : Option String)
      : Option String → Type 0 where
    nowhere : Passed cutoff page_size now from from
    onward :
        {token : Option String} (next : String)
        → Passed cutoff page_size now from token
        → All (Settled cutoff now) (c.get_detection_page token page_size).detections
        → (c.get_detection_page token page_size).next_page_token ≡ some next
        → Passed cutoff page_size now from (some next)

module _ (x : Externals) (c : Collector) (cutoff : ℕ) where
  pub Settled-insert_delivery :
      (key destination : String) (now : List Delivery) (d : Fields)
      → Settled x c cutoff now d
      → Settled x c cutoff (insert_delivery key destination now) d
  Settled-insert_delivery key destination now d (too_old e) = too_old e
  Settled-insert_delivery key destination now d (too_low e) = too_low e
  Settled-insert_delivery key destination now d (delivered e) =
      delivered (rw is_delivered-insert_delivery (ground (arith, e)))

  pub All-insert_delivery :
      (key destination : String) (now : List Delivery) (ds : List Fields)
      → All (Settled x c cutoff now) ds
      → All (Settled x c cutoff (insert_delivery key destination now)) ds
  All-insert_delivery key destination now [] h = tt
  All-insert_delivery key destination now (d ∷ ds) h = (
    Settled-insert_delivery key destination now d h.0,
    All-insert_delivery key destination now ds h.1,
  )

  pub Passed-insert_delivery :
      (key destination : String) (now : List Delivery) {page_size : ℕ} {from token : Option String}
      → Passed x c cutoff page_size now from token
      → Passed x c cutoff page_size (insert_delivery key destination now) from token
  Passed-insert_delivery key destination now nowhere = nowhere
  Passed-insert_delivery key destination now (onward next h settled e) =
      onward next (Passed-insert_delivery key destination now h)
        (All-insert_delivery key destination now _ settled) e

  pub Settled-marked :
      (destination : String) (now : List Delivery) (d : Fields)
      → Settled x c cutoff (insert_delivery (idempotency_key x c.destination d) destination now) d
  Settled-marked destination now d = delivered (
      rw is_delivered-insert_delivery (ground (arith, eq_refl (idempotency_key x c.destination d))))

-- `done` put back in front of `ds`, the last one first.
abbrev pub put_back : List Fields → List Fields → List Fields
put_back [] ds = ds
put_back (d ∷ done) ds = put_back done (d ∷ ds)

module _ (x : Externals) (c : Collector) (cutoff : ℕ) (now : List Delivery) where
  pub All-put_back :
      (done ds : List Fields)
      → All (Settled x c cutoff now) done
      → All (Settled x c cutoff now) ds
      → All (Settled x c cutoff now) (put_back done ds)
  All-put_back [] ds h k = k
  All-put_back (d ∷ done) ds h k = All-put_back done (d ∷ ds) h.1 (h.0, k)
