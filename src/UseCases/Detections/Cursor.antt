-- ===== src/UseCases/Detections/Cursor.antt =====
-- The cursor passes a page only when every detection of the page is settled.
mod Pages
pub use Pages.*
use eset_incident_ai.Prelude.{
  ℕ, String, ◌≡◌, refl, ap, sym, ◌∙◌, subst, Bool, true, false, Option, none, some, List, [], ◌∷◌,
  arith, All, take, eq_refl,
}
use eset_incident_ai.Value.{Fields}
use eset_incident_ai.Externals.{Externals}
use eset_incident_ai.World.{World, Delivery}
use eset_incident_ai.Exec.{ok}
use eset_incident_ai.Exec.Triple.{Triple, Post-ok, Triple-pure, Triple-bind, Triple-weaken}
use eset_incident_ai.Results.{CollectionResult}
use eset_incident_ai.Domain.Severity.{meets_threshold}
use eset_incident_ai.Discord.Webhook.Triples.{send-Triple}
use eset_incident_ai.Persistence.Deliveries.{is_delivered, insert_delivery}
use eset_incident_ai.Persistence.Deliveries.Once.{is_delivered-insert_delivery}
use eset_incident_ai.Persistence.Runs.Detections.{first, token_of}
use eset_incident_ai.Persistence.Runs.Detections.Triples.{save_cursor-Triple}
use eset_incident_ai.UseCases.Detections.{
  Collector, Request, Progress, DetectionPage, idempotency_key, is_stale, visit, process_page,
  advance, execute,
}
use eset_incident_ai.UseCases.Detections.Rules.{
  Branch, Branch-both, cutoff, notify_detection-Triple, visit-Triple, process_page-Triple,
  collect_pages-Triple, execute_run-Triple, execute-Triple,
}

module _ (x : Externals) (c : Collector) (page_size cutoff : ℕ) (from token : Option String) where
  -- The invariant of the outer loop, at the page of `token`.
  record AtPage (p : Progress) (now : List Delivery) : Type 0 where
    passed : Passed x c cutoff page_size now from token
    current : p.current_page_token ≡ token
    persistable : p.last_persistable_page_token ≡ token

  -- The invariant of the inner loop over `all`, of which `ds` are left.
  record InPage (all ds : List Fields) (p : Progress) (now : List Delivery) : Type 0 where
    at_page : AtPage p now
    done : List Fields
    parts : put_back done ds ≡ all
    settled : All (Settled x c cutoff now) done

  AtPage-insert_delivery :
      (key destination : String) (p : Progress) (now : List Delivery)
      → AtPage p now
      → AtPage p (insert_delivery key destination now)
  AtPage-insert_delivery key destination p now h = record {
    passed = Passed-insert_delivery x c cutoff key destination now h.passed;
    current = h.current;
    persistable = h.persistable;
  }

  InPage-settle :
      {all ds : List Fields} (d : Fields) (p q : Progress) (now : List Delivery)
      → AtPage q now
      → InPage all (d ∷ ds) p now
      → Settled x c cutoff now d
      → InPage all ds q now
  InPage-settle d p q now a h k = record {
    at_page = a;
    done = d ∷ h.done;
    parts = h.parts;
    settled = (k, h.settled);
  }

  InPage-insert_delivery :
      {all ds : List Fields} (key destination : String) (p : Progress) (now : List Delivery)
      → InPage all ds p now
      → InPage all ds p (insert_delivery key destination now)
  InPage-insert_delivery key destination p now h = record {
    at_page = AtPage-insert_delivery key destination p now h.at_page;
    done = h.done;
    parts = h.parts;
    settled = All-insert_delivery x c cutoff key destination now h.done h.settled;
  }

  AtPage-counts :
      (p q : Progress) (now : List Delivery)
      → q.current_page_token ≡ p.current_page_token
      → q.last_persistable_page_token ≡ p.last_persistable_page_token
      → AtPage p now
      → AtPage q now
  AtPage-counts p q now e f h = record {
    passed = h.passed;
    current = e ∙ h.current;
    persistable = f ∙ h.persistable;
  }

  visit-InPage :
      (limit : ℕ) (all : List Fields) (d : Fields) (ds : List Fields) (p : Progress)
      → Triple
          (λ w. InPage all (d ∷ ds) p w.deliveries)
          (visit x c limit cutoff d p)
          (λ r w. Branch r.1 (InPage all ds r.0 w.deliveries) (AtPage r.0 w.deliveries))
          (λ _. Unit)
  visit-InPage limit all d ds p =
      visit-Triple x c limit cutoff d p (λ p w. AtPage p w.deliveries)
        (λ e w h.
          InPage-settle d p _ w.deliveries (AtPage-counts p _ _ refl refl h.at_page) h (too_old e))
        (λ _ _ w h. AtPage-counts p _ _ refl refl h.at_page)
        (λ _ _.
          notify_detection-Triple x c d _ (λ w fs h. h) (λ w fs h. h) (λ w h. tt) (λ w h. tt)
            (λ w h e.
              InPage-settle d p _ w.deliveries (AtPage-counts p _ _ refl refl h.at_page) h
                (too_low e))
            (λ w h e.
              InPage-settle d p _ w.deliveries (AtPage-counts p _ _ refl refl h.at_page) h
                (delivered e))
            (λ analysis.
              Triple-weaken {P' = λ w. InPage all (d ∷ ds) p w.deliveries} _
                (send-Triple (λ w fs h. h) _ c.notifier (λ w h. h)) (λ w h. h.0) (λ a w h. h)
                (λ w h. tt))
            (λ w h. (
              InPage-settle d p _ _
                  (AtPage-counts p _ _ refl refl
                    (AtPage-insert_delivery _ c.destination p w.deliveries h.at_page))
                  (InPage-insert_delivery _ c.destination p w.deliveries h)
                  (Settled-marked x c cutoff c.destination w.deliveries d),
              tt,
            )))

  process_page-InPage :
      (limit : ℕ) (all : List Fields) (p q : Progress)
      → q.current_page_token ≡ p.current_page_token
      → q.last_persistable_page_token ≡ p.last_persistable_page_token
      → Triple
          (λ w. AtPage p w.deliveries)
          (process_page x c limit cutoff all q)
          (λ r w. Branch r.1 (InPage all [] r.0 w.deliveries) (AtPage r.0 w.deliveries))
          (λ _. Unit)
  process_page-InPage limit all p q e f =
      Triple-weaken _
        (process_page-Triple x c limit cutoff _ (λ p w. AtPage p w.deliveries)
          (visit-InPage limit all) all q)
        (λ w h. record {
          at_page = AtPage-counts p q w.deliveries e f h;
          done = [];
          parts = refl;
          settled = tt;
        })
        (λ a w h. h) (λ w h. h)

module _ (x : Externals) (c : Collector) (page_size cutoff : ℕ) (from : Option String) where
  -- The cursor stands at some page.
  abbrev Here : Progress → World → Type 0
  Here p w = AtPage x c page_size cutoff from p.current_page_token p w.deliveries

  -- The page has been looked through, or the limit has stopped the run in it.
  abbrev Through : DetectionPage → Progress × Bool → World → Type 0
  Through page s w =
      (token : Option String) × (page ≡ c.get_detection_page token page_size)
      × Branch s.1 (InPage x c page_size cutoff from token page.detections [] s.0 w.deliveries)
          (AtPage x c page_size cutoff from token s.0 w.deliveries)

  Here-at :
      (token : Option String) (p : Progress) (w : World)
      → AtPage x c page_size cutoff from token p w.deliveries
      → Here p w
  Here-at token p w h =
      subst (λ t. AtPage x c page_size cutoff from t p w.deliveries) (sym h.current) h

  Here-next :
      (page : DetectionPage) (next : String) (p : Progress) (w : World)
      → page.next_page_token ≡ some next
      → Through page (p, true) w
      → Here
          (record p { current_page_token = some next; last_persistable_page_token = some next })
          w
  Here-next page next p w e (token, e', h) = record {
    passed =
        onward next h.at_page.passed
          (subst (All (Settled x c cutoff w.deliveries))
            (h.parts ∙ ap (λ (g : DetectionPage). g.detections) e')
            (All-put_back x c cutoff w.deliveries h.done [] h.settled tt))
          (sym (ap (λ (g : DetectionPage). g.next_page_token) e') ∙ e);
    current = refl;
    persistable = refl;
  }

  advance-Here :
      (limit : ℕ) (page : DetectionPage) (next : Option String) (completed : Bool) (p : Progress)
      → page.next_page_token ≡ next
      → Triple
          (Through page (p, completed))
          (advance x c limit completed next p)
          (λ s w. Branch s.1 (Here s.0 w) (Here s.0 w))
          (λ _. Unit)
  unfolding advance
  advance-Here limit page none true p e =
      Triple-pure _ (λ w (token, e', h). Here-at token p w h.at_page)
  advance-Here limit page none false p e = Triple-pure _ (λ w (token, e', h). Here-at token p w h)
  advance-Here limit page (some next) false p e =
      Triple-pure _ (λ w (token, e', h). Here-at token p w h)
  advance-Here limit page (some next) true p e =
      Triple-bind _ _
        (save_cursor-Triple {Q = Through page (p, true)} (λ w fs h. h) (λ w h. tt) (some next)
          (λ w h. (h, tt)))
        (λ _. Triple-pure _ (λ w h. Branch-both _ (Here-next page next p w e h)))

module _ (x : Externals) (c : Collector) (r : Request) (from : Option String) where
  execute-Passed :
      Triple
        (λ w. stored_token w ≡ from)
        (execute x c r)
        (λ _ w. Passed x c (cutoff c r) r.page_size w.deliveries from (stored_token w))
        (λ _. Unit)
  execute-Passed =
      execute-Triple x c r (λ w fs h. h) (λ w message h. h)
        (execute_run-Triple x c r _ (Here x c r.page_size (cutoff c r) from)
          (Here x c r.page_size (cutoff c r) from) (λ w fs h. h) (λ p w fs h. h) (λ w h. tt)
          (λ w p h. tt) (λ w p h. tt)
          (λ w h. record {
            passed = subst (Passed x c (cutoff c r) r.page_size w.deliveries from) (sym h) nowhere;
            current = refl;
            persistable = refl;
          })
          (λ p.
            collect_pages-Triple x c r (cutoff c r) _ _ (Through x c r.page_size (cutoff c r) from)
              (λ p w fs h. h) (λ w p h. (h, tt))
              (λ p.
                Triple-weaken _
                  (process_page-InPage x c r.page_size (cutoff c r) from p.current_page_token
                    r.limit _ p _ refl refl)
                  (λ w h. h) (λ a w h. (p.current_page_token, refl, h)) (λ w h. h))
              (λ page p completed.
                advance-Here x c r.page_size (cutoff c r) from r.limit page page.next_page_token
                  completed p refl)
              r.max_pages_per_run p)
          (λ p w h. (
            subst (Passed x c (cutoff c r) r.page_size w.deliveries from)
                (h.current ∙ sym h.persistable) h.passed,
            tt,
          )))

-- Whatever the external calls do: when a run returns, every page between the cursor that it started
-- from and the cursor that it stored is settled, detection by detection. Each one is older than the
-- backfill window, below the notification threshold, or marked as delivered.
pub execute-Passed_cursor :
    (x : Externals) (c : Collector) (r : Request) (w : World) {res : CollectionResult}
    → (execute x c r w).0 ≡ ok res
    → Passed x c
        (cutoff c r)
        r.page_size
        (execute x c r w).1.deliveries
        (stored_token w)
        (stored_token (execute x c r w).1)
execute-Passed_cursor x c r w e =
    Post-ok _ _ (execute x c r w).0 (execute x c r w).1
      ((execute-Passed x c r (stored_token w)).at w refl) e
