-- ===== src/UseCases/Detections/Safety.antt =====
-- A run accounts for every detection that it looks at, and marks each key once, under every list of
-- faults.
use eset_incident_ai.Prelude.{
  ℕ, suc, ◌+◌, ◌≤◌, String, ◌≡◌, refl, ◌⊎◌, inl, inr, Bool, true, false, Option, none, some, List,
  arith, length,
}
use eset_incident_ai.Value.{Fields}
use eset_incident_ai.Externals.{Externals}
use eset_incident_ai.World.{World, Delivery}
use eset_incident_ai.Exec.Triple.{Triple, Post, Triple-pure, Triple-bind, Triple-weaken}
use eset_incident_ai.Results.{CollectionResult}
use eset_incident_ai.Discord.Webhook.Triples.{send-Triple}
use eset_incident_ai.Persistence.Deliveries.{is_delivered, insert_delivery}
use eset_incident_ai.Persistence.Deliveries.Growth.{
  Grown, Grown-start, Grown-insert_delivery, length-insert_delivery,
}
use eset_incident_ai.Persistence.Deliveries.Once.{KeysDiffer}
use eset_incident_ai.Persistence.Runs.Detections.Triples.{save_cursor-Triple}
use eset_incident_ai.UseCases.Detections.{
  Collector, Request, Progress, idempotency_key, notify_detection, process_page, advance, start,
  report, execute,
}
use eset_incident_ai.UseCases.Detections.Rules.{
  Branch, Branch-either, cutoff, notify_detection-Triple, visit-Triple, process_page-Triple,
  collect_pages-Triple, execute_run-Triple, execute-Triple,
}

-- Of a run that returned: the table grew by the notified keys, at most `limit` detections got as far
-- as the table, and each one collected was notified, a duplicate or skipped, but for the one at
-- which the limit may have stopped the run.
pub record Accounted (ds : List Delivery) (limit : ℕ) (res : CollectionResult) (now : List Delivery)
    : Type 0 where
  pub grown : Grown ds now
  pub marked : length now ≡ length ds + res.notified_count
  pub none_pending : res.pending_approval_count ≡ 0
  pub within_limit : res.notified_count + res.duplicate_skipped_count ≤ limit
  pub counted :
      (res.collected_count ≡ res.notified_count + res.duplicate_skipped_count + res.skipped_count)
      ⊎ (res.collected_count
          ≡ suc (res.notified_count + res.duplicate_skipped_count + res.skipped_count))

-- The invariant of the loops: `extra` detections are collected and not counted further, of which
-- `in_hand` are counted as processed.
record Inv (ds : List Delivery) (limit extra in_hand : ℕ) (p : Progress) (now : List Delivery)
    : Type 0 where
  grown : Grown ds now
  marked : length now ≡ length ds + p.notified_count
  none_pending : p.pending_approval_count ≡ 0
  processed : p.notified_count + p.duplicate_skipped_count + in_hand ≤ p.processed_count
  within_limit : p.processed_count ≤ limit
  counted :
      p.collected_count ≡ p.notified_count + p.duplicate_skipped_count + p.skipped_count + extra

module _ (x : Externals) (c : Collector) (ds : List Delivery) (limit : ℕ) where
  -- What holds when a run fails.
  abbrev Failed : World → Type 0
  Failed w = Grown ds w.deliveries

  Inv-marked :
      (key destination : String) (p : Progress) (now : List Delivery)
      → Inv ds limit 1 1 p now
      → is_delivered key now ≡ false
      → Inv ds limit 0 0
          (record p { notified_count = p.notified_count + 1 })
          (insert_delivery key destination now)
  Inv-marked key destination p now h fresh = record {
    grown = Grown-insert_delivery ds now key destination h.grown;
    marked = omega (arith, length-insert_delivery key destination now fresh, h.marked);
    none_pending = h.none_pending;
    processed = omega arith;
    within_limit = h.within_limit;
    counted = omega arith;
  }

  notify_detection-Inv :
      (d : Fields) (p : Progress)
      → Triple
          (λ w. Inv ds limit 1 1 p w.deliveries)
          (notify_detection x c d p)
          (λ p' w. Inv ds limit 0 0 p' w.deliveries)
          Failed
  notify_detection-Inv d p =
      notify_detection-Triple x c d p (λ w fs h. h) (λ w fs h. h) (λ w h. h.grown)
        (λ w h. h.0.grown) (λ w h e. ground arith) (λ w h e. ground arith)
        (λ analysis.
          Triple-weaken _ (send-Triple (λ w fs h. h) _ c.notifier (λ w h. h)) (λ w h. h)
            (λ a w h. h) (λ w h. h.0.grown))
        (λ w h. (
          Inv-marked (idempotency_key x c.destination d) c.destination p w.deliveries h.0 h.1,
          Grown-insert_delivery ds w.deliveries _ c.destination h.0.grown,
        ))

  process_page-Inv :
      (cutoff : ℕ) (page : List Fields) (p : Progress)
      → Triple
          (λ w. Inv ds limit 0 0 p w.deliveries)
          (process_page x c limit cutoff page p)
          (λ r w.
            Branch r.1 (Inv ds limit 0 0 r.0 w.deliveries) (Inv ds limit 1 0 r.0 w.deliveries))
          Failed
  process_page-Inv cutoff =
      process_page-Triple x c limit cutoff (λ _ p w. Inv ds limit 0 0 p w.deliveries)
        (λ p w. Inv ds limit 1 0 p w.deliveries)
        (λ d rest p.
          visit-Triple x c limit cutoff d p (λ p w. Inv ds limit 1 0 p w.deliveries)
            (λ _ w h. ground arith) (λ _ _ w h. ground arith)
            (λ _ room.
              Triple-weaken _ (notify_detection-Inv d _) (λ w h. ground (arith, h)) (λ a w q. q)
                (λ w q. q)))

  Inv-tokens :
      (p : Progress) (now : List Delivery) (token : String)
      → Inv ds limit 0 0 p now
      → Inv ds limit 0 0
          (record p { current_page_token = some token; last_persistable_page_token = some token })
          now
  Inv-tokens p now token h = ground arith

  advance-Inv :
      (completed : Bool) (next : Option String) (p : Progress)
      → Triple
          (λ w.
            Branch completed (Inv ds limit 0 0 p w.deliveries) (Inv ds limit 1 0 p w.deliveries))
          (advance x c limit completed next p)
          (λ s w.
            Branch s.1
              (Inv ds limit 0 0 s.0 w.deliveries)
              (Inv ds limit 0 0 s.0 w.deliveries ⊎ Inv ds limit 1 0 s.0 w.deliveries))
          Failed
  unfolding advance
  advance-Inv true none p = Triple-pure _ (λ w h. inl h)
  advance-Inv false none p = Triple-pure _ (λ w h. inr h)
  advance-Inv false (some token) p = Triple-pure _ (λ w h. inr h)
  advance-Inv true (some token) p =
      Triple-bind _ _
        (save_cursor-Triple {Q = λ w. Inv ds limit 0 0 p w.deliveries} (λ w fs h. h)
          (λ w h. h.grown) (some token) (λ w h. (h, h.grown)))
        (λ _. Triple-pure _ (λ w h. Branch-either _ _ (Inv-tokens p w.deliveries token h)))

module _ (x : Externals) (c : Collector) (r : Request) (ds : List Delivery) where
  -- A run ends in one of two ways: the limit stopped it at a detection, or not.
  abbrev Ended : Progress → World → Type 0
  Ended p w = Inv ds r.limit 0 0 p w.deliveries ⊎ Inv ds r.limit 1 0 p w.deliveries

  Ended-Grown : (p : Progress) (w : World) → Ended p w → Grown ds w.deliveries
  Ended-Grown p w (inl h) = h.grown
  Ended-Grown p w (inr h) = h.grown

  Inv-start :
      (token : Option String) (now : List Delivery)
      → now ≡ ds
      → KeysDiffer now
      → Inv ds r.limit 0 0 (start token) now
  Inv-start token now e h = record {
    grown = Grown-start e h;
    marked = rw e (omega arith);
    none_pending = refl;
    processed = omega arith;
    within_limit = omega arith;
    counted = omega arith;
  }

  Ended-Accounted :
      (p : Progress) (w : World) → Ended p w → Accounted ds r.limit (report x c p) w.deliveries
  Ended-Accounted p w (inl h) = ground (arith, h)
  Ended-Accounted p w (inr h) = ground (arith, h)

  execute-Accounted :
      Triple
        (λ w. (w.deliveries ≡ ds) × KeysDiffer w.deliveries)
        (execute x c r)
        (λ res w. Accounted ds r.limit res w.deliveries)
        (λ w. Grown ds w.deliveries)
  execute-Accounted =
      execute-Triple x c r (λ w fs h. h) (λ w message h. h)
        (execute_run-Triple x c r _ (λ p w. Inv ds r.limit 0 0 p w.deliveries) Ended (λ w fs h. h)
          (λ p w fs h. h) (λ w h. Grown-start h.0 h.1) (λ w p h. h.grown)
          (λ w p h. Ended-Grown p w h) (λ w h. Inv-start _ w.deliveries h.0 h.1)
          (λ p.
            collect_pages-Triple x c r (cutoff c r) _ Ended
              (λ page s w.
                Branch s.1 (Inv ds r.limit 0 0 s.0 w.deliveries)
                  (Inv ds r.limit 1 0 s.0 w.deliveries))
              (λ p w fs h. h) (λ w p h. (inl h, h.grown))
              (λ p.
                Triple-weaken _ (process_page-Inv x c ds r.limit (cutoff c r) _ _)
                  (λ w h. ground (arith, h)) (λ a w q. q) (λ w q. q))
              (λ page p completed. advance-Inv x c ds r.limit completed page.next_page_token p)
              r.max_pages_per_run p)
          (λ p w h. (Ended-Accounted p w h, Ended-Grown p w h)))

pub execute_accounts :
    (x : Externals) (c : Collector) (r : Request) (w : World)
    → KeysDiffer w.deliveries
    → Post
        (λ res w'. Accounted w.deliveries r.limit res w'.deliveries)
        (λ w'. Grown w.deliveries w'.deliveries)
        (execute x c r w).0
        (execute x c r w).1
execute_accounts x c r w h = (execute-Accounted x c r w.deliveries).at w (refl, h)
