-- ===== src/UseCases/Detections/Starvation/Runs.antt =====
-- Runs that start at a page with more detections than the limit.
use eset_incident_ai.Prelude.{ℕ, zero, suc, ◌*◌, ◌≤◌, ◌<◌, String, ◌≡◌, Option, []}
use eset_incident_ai.Externals.{Externals}
use eset_incident_ai.World.{World}
use eset_incident_ai.Exec.Quiet.{Quiet}
use eset_incident_ai.UseCases.Detections.{
  Collector, Request, DetectionPage, execute, microseconds_per_day,
}
use eset_incident_ai.UseCases.Detections.Rules.{cutoff}
use eset_incident_ai.UseCases.Detections.Cursor.{stored_token}
use eset_incident_ai.UseCases.Detections.Starvation.FullPage.{Blocked}

module _ (x : Externals) (c : Collector) (r : Request) (w : World) (calm : w.faults ≡ [])
    (dated : r.backfill_window_days * microseconds_per_day ≤ c.now)
    (may_fetch : 0 < r.max_pages_per_run) where
  abbrev page : DetectionPage
  page = c.get_detection_page (stored_token w) r.page_size

-- `n` further runs with the same settings.
unfoldable pub runs : Externals → Collector → Request → ℕ → World → World
runs x c r zero w = w
runs x c r (suc n) w = runs x c r n (execute x c r w).1

module _ (x : Externals) (c : Collector) (r : Request)
    (dated : r.backfill_window_days * microseconds_per_day ≤ c.now)
    (may_fetch : 0 < r.max_pages_per_run) where
  -- The page at `token` is blocked, and the next run starts at it.
  record Stuck (token : Option String) (w : World) : Type 0 where
    calm : w.faults ≡ []
    at_token : stored_token w ≡ token
    blocked :
        Blocked x c
          (cutoff c r)
          w.deliveries
          r.limit
          (c.get_detection_page token r.page_size).detections
