-- ===== src/UseCases/Incidents/Safety.antt =====
-- A run of the incident collector accounts for every incident, under every list of faults.
mod Invariant
pub use Invariant.*
use eset_incident_ai.Prelude.{
  ℕ, ◌+◌, ◌≤◌, max, ◌≡◌, refl, sym, ◌∙◌, Bool, true, false, not, Option, none, some, List, [], ◌∷◌,
  arith, length, leb, String, add_keys,
}
use eset_incident_ai.Value.{Fields, keys}
use eset_incident_ai.Externals.{Externals}
use eset_incident_ai.World.{World, Delivery}
use eset_incident_ai.Exec.Triple.{
  Triple, Stable, Post, Triple-pure, Triple-bind, Triple-if, Triple-weaken, Triple-catch,
  Triple-raise, Triple-answer-bind,
}
use eset_incident_ai.Results.{CollectionResult}
use eset_incident_ai.Domain.Severity.{Severity, meets_threshold}
use eset_incident_ai.Discord.Webhook.Triples.{send-Triple}
use eset_incident_ai.Persistence.Deliveries.{is_delivered, insert_delivery}
use eset_incident_ai.Persistence.Deliveries.Growth.{
  Grown, Grown-start, Grown-insert_delivery, length-insert_delivery,
}
use eset_incident_ai.Persistence.Deliveries.Once.{KeysDiffer}
use eset_incident_ai.Persistence.Deliveries.Triples.{was_delivered-Triple, mark_delivered-Triple}
use eset_incident_ai.Persistence.Runs.Incidents.Triples.{save_success-Triple, save_failure-Triple}
use eset_incident_ai.UseCases.Detections.Rules.{Branch, Branch-Triple}
use eset_incident_ai.UseCases.Ports.{Analyzer}
use eset_incident_ai.UseCases.Ports.Triples.{analyze_incident-Triple}
use eset_incident_ai.UseCases.Incidents.{
  Collector, Progress, idempotency_key, to_domain_incident, analyze_with, notify_incident, visit,
  process_page, collect_pages, start, report, execute_run, record_failure, execute,
}

module _ (x : Externals) (c : Collector) (ds : List Delivery) (limit : ℕ) where
  abbrev Broken : World → Type 0
  Broken = Failed x c ds limit

  -- Of a loop that goes on: there is room for one more incident.
  abbrev Going : Progress → World → Type 0
  Going p w = Inv ds limit 0 p w.deliveries × (p.collected_count + 1 ≤ max limit 1)

  abbrev Ended : Progress → World → Type 0
  Ended p w = Inv ds limit 0 p w.deliveries

  Going-observe :
      (i : Fields) (p : Progress) (now : List Delivery)
      → Inv ds limit 0 p now
      → p.collected_count + 1 ≤ max limit 1
      → Inv ds limit 1
          (record p {
            collected_count = p.collected_count + 1;
            observed_keys = add_keys (keys i) p.observed_keys;
          })
          now
  Going-observe i p now h room = record {
    grown = h.grown;
    marked = h.marked;
    none_pending = h.none_pending;
    within_limit = room;
    room = omega (arith, h.room);
  }

  Branch-room :
      (more : Bool) (p : Progress) (w : World)
      → not (leb limit p.collected_count) ≡ more
      → Ended p w
      → Branch more (Going p w) (Ended p w)
  Branch-room true p w e h = (h, ground (arith, e))
  Branch-room false p w e h = h

  visit-Inv :
      (i : Fields) (p : Progress)
      → Triple
          (Going p)
          (visit x c limit i p)
          (λ r w. Branch r.1 (Going r.0 w) (Ended r.0 w))
          Broken
  unfolding visit
  visit-Inv i p =
      Triple-bind _ _
        (Triple-weaken _ (notify_incident-Inv x c ds limit i _)
          (λ w h. Going-observe i p w.deliveries h.0 h.1) (λ p' w h. h.0) (λ w h. h))
        (λ p'. Triple-pure _ (λ w h. Branch-room (not (leb limit p'.collected_count)) p' w refl h))

  Ended-of :
      (more : Bool) (p : Progress) (w : World) → Branch more (Going p w) (Ended p w) → Ended p w
  Ended-of true p w h = h.0
  Ended-of false p w h = h

  process_page-Inv :
      (page : List Fields) (p : Progress)
      → Triple
          (Going p)
          (process_page x c limit page p)
          (λ r w. Branch r.1 (Going r.0 w) (Ended r.0 w))
          Broken
  unfolding process_page
  process_page-Inv [] p = Triple-pure _ (λ w h. h)
  process_page-Inv (i ∷ is) p =
      Triple-bind _ _ (visit-Inv i p)
        (λ r. Branch-Triple r.1 _ _ (process_page-Inv is r.0) (Triple-pure _ (λ w h. h)))

  collect_pages-Inv :
      (pages : List (List Fields)) (p : Progress)
      → Triple (Going p) (collect_pages x c limit pages p) Ended Broken
  unfolding collect_pages
  collect_pages-Inv [] p = Triple-pure _ (λ w h. h.0)
  collect_pages-Inv (page ∷ pages) p =
      Triple-answer-bind _ _ (λ w fs h. h) (λ w h. h.0.grown)
        (Triple-bind _ _ (process_page-Inv page p)
          (λ r. Branch-Triple r.1 _ _ (collect_pages-Inv pages r.0) (Triple-pure _ (λ w h. h))))

module _ (x : Externals) (c : Collector) (ds : List Delivery) (limit : ℕ) where
  Going-start :
      (w : World) → w.deliveries ≡ ds → KeysDiffer w.deliveries → Going x c ds limit start w
  Going-start w e h = (
    record {
      grown = Grown-start e h;
      marked = rw e (omega arith);
      none_pending = refl;
      within_limit = omega arith;
      room = omega arith;
    },
    omega arith,
  )

  Inv-Accounted :
      (p : Progress) (now : List Delivery)
      → Inv ds limit 0 p now
      → Accounted ds limit (report x c p) now
  Inv-Accounted p now h = ground (arith, h)

  execute-Accounted :
      (after : Option String)
      → Triple
          (λ w. (w.deliveries ≡ ds) × KeysDiffer w.deliveries)
          (execute x c limit after)
          (λ res w. Accounted ds limit res w.deliveries)
          (λ w. Grown ds w.deliveries)
  unfolding execute execute_run record_failure
  execute-Accounted after =
      Triple-catch {E' = λ w. Grown ds w.deliveries} _ _
        (Triple-bind _ _
          (Triple-weaken _ (collect_pages-Inv x c ds limit _ start) (λ w h. Going-start w h.0 h.1)
            (λ p w h. h) (λ w h. h))
          (λ p.
            Triple-bind _ _
              (save_success-Triple {P = λ w. Inv ds limit 0 p w.deliveries} (λ w fs h. h)
                (λ w h. h.grown) (report x c p) (λ w h. (h, h.grown)))
              (λ _. Triple-pure _ (λ w h. Inv-Accounted p w.deliveries h))))
        (λ e.
          Triple-bind {Q = λ _ w. Grown ds w.deliveries} _ _
            (Triple-catch {E' = λ w. Grown ds w.deliveries} _ _
              (save_failure-Triple (λ w fs h. h) (λ w h. h) _ (λ w h. (h, h)))
              (λ _. Triple-pure _ (λ w h. h)))
            (λ _. Triple-raise _ (λ w h. h)))

-- Whatever the external calls do, from a delivery table without a repeated key: an incident run that
-- returns has marked as many new keys as it reports notified, reports nothing pending, has collected
-- at most `max limit 1` incidents, and has counted each of them once as notified, duplicate or
-- skipped. Whether it returns or raises, no key stands twice in the table and no delivered key is
-- lost.
pub execute_accounts_incidents :
    (x : Externals) (c : Collector) (limit : ℕ) (after : Option String) (w : World)
    → KeysDiffer w.deliveries
    → Post
        (λ res w'. Accounted w.deliveries limit res w'.deliveries)
        (λ w'. Grown w.deliveries w'.deliveries)
        (execute x c limit after w).0
        (execute x c limit after w).1
execute_accounts_incidents x c limit after w h =
    (execute-Accounted x c w.deliveries limit after).at w (refl, h)
