-- ===== src/UseCases/Detections/Rules.antt =====
-- Rules for the loops of the collector: an invariant that each round keeps is kept by the loop.
mod Branches
pub use Branches.*
use eset_incident_ai.Prelude.{
  ℕ, zero, suc, String, ◌⊎◌, inl, refl, ◌-◌, leb, not, arith, ◌∙◌, ◌+◌, ◌≡◌, Bool, true, false,
  Option, none, some, List, [], ◌∷◌, take, ltb, ◌*◌, subst, sym, if◌then◌else◌,
}
use eset_incident_ai.Value.{Fields}
use eset_incident_ai.Externals.{Externals}
use eset_incident_ai.World.{World, DetectionRun}
use eset_incident_ai.Exec.{Exec}
use eset_incident_ai.Exec.Triple.{
  Triple, Stable, Triple-pure, Triple-bind, Triple-catch, Triple-answer-bind, Triple-if,
  Triple-weaken, Triple-raise, Triple-at,
}
use eset_incident_ai.Domain.Severity.{Severity, meets_threshold}
use eset_incident_ai.Domain.Analysis.{IncidentAnalysisResult}
use eset_incident_ai.Discord.Webhook.{send}
use eset_incident_ai.Persistence.Deliveries.{is_delivered}
use eset_incident_ai.Persistence.Deliveries.Triples.{
  add_delivery, was_delivered-Triple, mark_delivered-Triple,
}
use eset_incident_ai.Results.{CollectionResult}
use eset_incident_ai.Persistence.Runs.Detections.{latest, first, token_of, add_success, add_failure}
use eset_incident_ai.Persistence.Runs.Detections.Triples.{
  latest-Triple, save_success-Triple, save_failure-Triple,
}
use eset_incident_ai.UseCases.Ports.{Analyzer}
use eset_incident_ai.UseCases.Ports.Triples.{analyze_incident-Triple}
use eset_incident_ai.UseCases.Detections.{
  Collector, Request, Progress, DetectionPage, idempotency_key, is_stale, observe, analyze_with,
  to_analysis_incident, analyze_detection, notify_detection, visit, process_page, advance,
  collect_pages, start, report, cutoff_of, execute_run, execute, record_failure,
  microseconds_per_day,
}

module _ (x : Externals) (c : Collector) {E : World → Type 0} where
  -- One detection. `S` holds once its message is sent.
  pub notify_detection-Triple :
      (d : Fields) (p : Progress) {P S : World → Type 0} {Q : Progress → World → Type 0}
      → Stable P
      → Stable S
      → ((w : World) → P w → E w)
      → ((w : World) → S w → E w)
      → let key = idempotency_key x c.destination d in
        let fresh : World → Type 0 = λ w. P w × (is_delivered key w.deliveries ≡ false) in
        ((w : World)
          → P w
          → meets_threshold (c.notification_builder.severity d) c.min_severity ≡ false
          → Q (record p { skipped_count = p.skipped_count + 1 }) w)
        → ((w : World)
            → P w
            → is_delivered key w.deliveries ≡ true
            → Q (record p { duplicate_skipped_count = p.duplicate_skipped_count + 1 }) w)
        → ((analysis : Option IncidentAnalysisResult)
            → Triple fresh (send c.notifier (c.notification_builder.build d analysis)) (λ _. S) E)
        → ((w : World)
            → S w
            → let w' = add_delivery key c.destination w in
              Q (record p { notified_count = p.notified_count + 1 }) w' × E w')
        → Triple P (notify_detection x c d p) Q E
  unfolding notify_detection analyze_detection
  notify_detection-Triple d p {P} {S} stable stable_S failed failed_S low duplicate sends marks =
      Triple-if (not (meets_threshold severity c.min_severity)) _ _
        (λ e. Triple-pure _ (λ w h. low w h (ground (arith, e))))
        (λ _.
          Triple-bind _ _
            (Triple-weaken _ (was_delivered-Triple stable key) (λ w h. h) (λ b w h. h) failed)
            (λ b.
              Triple-if b _ _ (λ e. Triple-pure _ (λ w h. duplicate w h.0 (sym h.1 ∙ e)))
                (λ e.
                  Triple-weaken _
                    (Triple-bind _ _
                      (Triple-weaken _
                        (analyze_with-Triple x {P = fresh} (λ w fs h. (stable w fs h.0, h.1))
                          c.analyzer d severity)
                        (λ w h. h) (λ b w h. h) (λ w h. failed w h.0))
                      (λ analysis. Triple-bind _ _ (sends analysis) (λ _.
                        Triple-bind _ _
                          (mark_delivered-Triple stable_S key c.destination failed_S marks)
                          (λ _. Triple-pure _ (λ w h. h)))))
                    (λ w h. (h.0, sym h.1 ∙ e)) (λ a w q. q) (λ w q. q))))
    where
      severity : Severity
      severity = c.notification_builder.severity d

      key : String
      key = idempotency_key x c.destination d

      fresh : World → Type 0
      fresh w = P w × (is_delivered key w.deliveries ≡ false)

  -- One round of the inner loop: too old, stopped by the limit, or taken in hand.
  pub visit-Triple :
      (limit cutoff : ℕ) (d : Fields) (p : Progress) {P : World → Type 0}
      {G : Progress → World → Type 0} (R : Progress → World → Type 0)
      → (is_stale x cutoff d ≡ true
          → (w : World) → P w
          → G (record (observe x c d p) { skipped_count = p.skipped_count + 1 }) w)
      → (is_stale x cutoff d ≡ false
          → leb limit p.processed_count ≡ true
          → (w : World) → P w
          → R (observe x c d p) w)
      → (is_stale x cutoff d ≡ false
          → leb limit p.processed_count ≡ false
          → Triple P
              (notify_detection x c d
                (record (observe x c d p) { processed_count = p.processed_count + 1 }))
              G
              E)
      → Triple P (visit x c limit cutoff d p) (λ r w. Branch r.1 (G r.0 w) (R r.0 w)) E
  unfolding visit
  visit-Triple limit cutoff d p R old stop go =
      Triple-if (is_stale x cutoff d) _ _ (λ e. Triple-pure _ (old e))
        (λ e.
          Triple-if (leb limit p.processed_count) _ _ (λ f. Triple-pure _ (stop e f))
            (λ f. Triple-bind _ _ (go e f) (λ p'. Triple-pure _ (λ w h. h))))

  module _ (limit cutoff : ℕ) where
    -- `I` is the invariant before the rest of a page, `R` what holds when the loop breaks.
    pub process_page-Triple :
        (I : List Fields → Progress → World → Type 0) (R : Progress → World → Type 0)
        → ((d : Fields) (ds : List Fields) (p : Progress)
            → Triple
                (I (d ∷ ds) p)
                (visit x c limit cutoff d p)
                (λ r w. Branch r.1 (I ds r.0 w) (R r.0 w))
                E)
        → (ds : List Fields) (p : Progress)
        → Triple
            (I ds p)
            (process_page x c limit cutoff ds p)
            (λ r w. Branch r.1 (I [] r.0 w) (R r.0 w))
            E
    unfolding process_page
    process_page-Triple I R step [] p = Triple-pure _ (λ w h. h)
    process_page-Triple I R step (d ∷ ds) p = Triple-bind _ _ (step d ds p) (λ r.
        Branch-Triple r.1 _ _ (process_page-Triple I R step ds r.0) (Triple-pure _ (λ w h. h)))

  -- `K` is the invariant of the outer loop, `M` holds between the inner loop and `advance`, and `F`
  -- at the end.
  pub collect_pages-Triple :
      (r : Request) (cutoff : ℕ) (K F : Progress → World → Type 0)
      (M : DetectionPage → Progress × Bool → World → Type 0)
      → ((p : Progress) → Stable (K p))
      → ((w : World) (p : Progress) → K p w → F p w × E w)
      → ((p : Progress)
          → let page = c.get_detection_page p.current_page_token r.page_size in
            Triple
              (K p)
              (process_page x c r.limit cutoff page.detections
                (record p { pages_fetched = p.pages_fetched + 1 }))
              (M page)
              E)
      → ((page : DetectionPage) (p : Progress) (completed : Bool)
          → Triple
              (M page (p, completed))
              (advance x c r.limit completed page.next_page_token p)
              (λ s w. Branch s.1 (K s.0 w) (F s.0 w))
              E)
      → (remaining : ℕ) (p : Progress) → Triple (K p) (collect_pages x c remaining r cutoff p) F E
  unfolding collect_pages
  collect_pages-Triple r cutoff K F M stable ends inner outer zero p =
      Triple-pure _ (λ w h. (ends w p h).0)
  collect_pages-Triple r cutoff K F M stable ends inner outer (suc remaining) p =
      Triple-answer-bind _ _ (stable p) (λ w h. (ends w p h).1)
        (Triple-bind _ _ (inner p) (λ s.
          Triple-bind _ _ (outer (c.get_detection_page p.current_page_token r.page_size) s.0 s.1)
            (λ t.
              Branch-Triple t.1 _ _
                (collect_pages-Triple r cutoff K F M stable ends inner outer remaining t.0)
                (Triple-pure _ (λ w h. h)))))

  -- The whole run, from what holds of the stored cursor.
  pub execute_run-Triple :
      (r : Request) (P : World → Type 0) (K F : Progress → World → Type 0)
      → Stable P
      → ((p : Progress) → Stable (F p))
      → ((w : World) → P w → E w)
      → ((w : World) (p : Progress) → K p w → E w)
      → ((w : World) (p : Progress) → F p w → E w)
      → ((w : World) → P w → K (start (token_of (first (take 1 w.detection_runs.rows)))) w)
      → ((p : Progress) → Triple (K p) (collect_pages x c r.max_pages_per_run r (cutoff c r) p) F E)
      → {Q : CollectionResult → World → Type 0}
      → ((p : Progress) (w : World)
          → F p w
          → let w' = add_success (report x c p) p.last_persistable_page_token w in
            Q (report x c p) w' × E w')
      → Triple P (execute_run x c r) Q E
  unfolding execute_run cutoff_of
  execute_run-Triple r P K F stable stable_F failed failed_K failed_F enter loop {Q} finish =
      Triple-bind _ _
        (Triple-weaken latest (latest-Triple stable) (λ w h. h)
          (λ a w h.
            subst (λ (o : Option DetectionRun). K (start (token_of o)) w) (sym h.1) (enter w h.0))
          failed)
        (λ a.
          Triple-bind _ _
            (Triple-if (ltb c.now (r.backfill_window_days * microseconds_per_day)) _ _
              (λ _. Triple-raise _ (λ w h. failed_K w _ h))
              (λ _. Triple-pure {Q = λ b w. (b ≡ cutoff c r) × K _ w} _ (λ w h. (refl, h))))
            (Triple-at _ _ (
              Triple-bind _ _ (loop (start (token_of a))) (λ p.
                Triple-bind _ _
                  (save_success-Triple {Q = λ w. Q (report x c p) w} (stable_F p)
                    (λ w h. failed_F w p h) (report x c p) p.last_persistable_page_token (finish p))
                  (λ _. Triple-pure _ (λ w h. h))))))

  -- The handler of `execute` adds at most a row about the failure, and raises again.
  pub execute-Triple :
      (r : Request) {P : World → Type 0} {Q : CollectionResult → World → Type 0}
      → Stable E
      → ((w : World) (message : String) → E w → E (add_failure message w))
      → Triple P (execute_run x c r) Q E
      → Triple P (execute x c r) Q E
  unfolding execute record_failure
  execute-Triple r stable h t = Triple-catch _ _ t (λ e.
      Triple-bind {Q = λ _. E} _ _
        (Triple-catch {E' = E} _ _
          (save_failure-Triple stable (λ w p. p) _ (λ w p. (h w _ p, h w _ p)))
          (λ _. Triple-pure _ (λ w p. p)))
        (λ _. Triple-raise e (λ w p. p)))
