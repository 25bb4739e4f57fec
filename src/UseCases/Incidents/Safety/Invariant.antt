-- ===== src/UseCases/Incidents/Safety/Invariant.antt =====
-- The invariant of the loops, and one incident under it.
use eset_incident_ai.Prelude.{
  ℕ, ◌+◌, ◌≤◌, max, ◌≡◌, refl, sym, ◌∙◌, false, not, Option, none, some, List, arith, length,
  String,
}
use eset_incident_ai.Value.{Fields}
use eset_incident_ai.Externals.{Externals}
use eset_incident_ai.World.{World, Delivery}
use eset_incident_ai.Exec.Triple.{
  Triple, Stable, Triple-pure, Triple-bind, Triple-if, Triple-weaken, Triple-catch,
}
use eset_incident_ai.Results.{CollectionResult}
use eset_incident_ai.Domain.Severity.{Severity, meets_threshold}
use eset_incident_ai.Discord.Webhook.Triples.{send-Triple}
use eset_incident_ai.Persistence.Deliveries.{is_delivered, insert_delivery}
use eset_incident_ai.Persistence.Deliveries.Growth.{
  Grown, Grown-insert_delivery, length-insert_delivery,
}
use eset_incident_ai.Persistence.Deliveries.Triples.{was_delivered-Triple, mark_delivered-Triple}
use eset_incident_ai.UseCases.Ports.{Analyzer}
use eset_incident_ai.UseCases.Ports.Triples.{analyze_incident-Triple}
use eset_incident_ai.UseCases.Incidents.{
  Collector, Progress, idempotency_key, to_domain_incident, analyze_with, notify_incident,
}

-- Of a run that returned: the table grew by the notified keys, at most `limit` incidents (one, where
-- `limit` is 0) were collected, and each one was notified, a duplicate or skipped.
pub record Accounted (ds : List Delivery) (limit : ℕ) (res : CollectionResult) (now : List Delivery)
    : Type 0 where
  pub grown : Grown ds now
  pub marked : length now ≡ length ds + res.notified_count
  pub none_pending : res.pending_approval_count ≡ 0
  pub within_limit : res.collected_count ≤ max limit 1
  pub counted :
      res.collected_count ≡ res.notified_count + res.duplicate_skipped_count + res.skipped_count

-- The invariant of the loops; `in_hand` incidents are collected and not counted further.
pub record Inv (ds : List Delivery) (limit in_hand : ℕ) (p : Progress) (now : List Delivery)
    : Type 0 where
  pub grown : Grown ds now
  pub marked : length now ≡ length ds + p.notified_count
  pub none_pending : p.pending_approval_count ≡ 0
  pub within_limit : p.collected_count ≤ max limit 1
  pub room : p.notified_count + p.duplicate_skipped_count + in_hand ≤ p.collected_count

module _ (x : Externals) {P : World → Type 0} (stable : Stable P) where
  analyze_with-Triple :
      (o : Option Analyzer) (i : Fields) (s : Severity) → Triple P (analyze_with x o i s) (λ _. P) P
  unfolding analyze_with
  analyze_with-Triple none i s = Triple-pure _ (λ w h. h)
  analyze_with-Triple (some a) i s =
      Triple-catch _ _
        (Triple-bind _ _ (analyze_incident-Triple stable a (to_domain_incident x i s) "default")
          (λ _. Triple-pure _ (λ w h. h)))
        (λ _. Triple-pure _ (λ w h. h))

module _ (x : Externals) (c : Collector) (ds : List Delivery) (limit : ℕ) where
  abbrev pub Failed : World → Type 0
  Failed w = Grown ds w.deliveries

  abbrev Fresh : String → Progress → World → Type 0
  Fresh key p w = Inv ds limit 1 p w.deliveries × (is_delivered key w.deliveries ≡ false)

  Inv-marked :
      (key destination : String) (p : Progress) (now : List Delivery)
      → Inv ds limit 1 p now
      → is_delivered key now ≡ false
      → Inv ds limit 0
          (record p { notified_count = p.notified_count + 1 })
          (insert_delivery key destination now)
  Inv-marked key destination p now h fresh = record {
    grown = Grown-insert_delivery ds now key destination h.grown;
    marked = omega (arith, length-insert_delivery key destination now fresh, h.marked);
    none_pending = h.none_pending;
    within_limit = h.within_limit;
    room = omega arith;
  }

  pub notify_incident-Inv :
      (i : Fields) (p : Progress)
      → Triple
          (λ w. Inv ds limit 1 p w.deliveries)
          (notify_incident x c i p)
          (λ p' w. Inv ds limit 0 p' w.deliveries × (p'.collected_count ≡ p.collected_count))
          Failed
  unfolding notify_incident
  notify_incident-Inv i p =
      Triple-if (not (meets_threshold severity c.min_severity)) _ _
        (λ _. Triple-pure _ (λ w h. (ground arith, refl)))
        (λ _.
          Triple-bind _ _
            (Triple-weaken _
              (was_delivered-Triple {P = λ w. Inv ds limit 1 p w.deliveries} (λ w fs h. h) key)
              (λ w h. h) (λ b w h. h) (λ w h. h.grown))
            (λ b.
              Triple-if b _ _ (λ _. Triple-pure _ (λ w h. (ground (arith, h.0), refl)))
                (λ e.
                  Triple-weaken {P' = Fresh key p} _
                    (Triple-bind _ _
                      (Triple-weaken _
                        (analyze_with-Triple x {P = Fresh key p} (λ w fs h. h) c.analyzer i
                          severity)
                        (λ w h. h) (λ a w h. h) (λ w h. h.0.grown))
                      (λ analysis.
                        Triple-bind _ _
                          (Triple-weaken _
                            (send-Triple {P = Fresh key p} (λ w fs h. h) _ c.notifier (λ w h. h))
                            (λ w h. h) (λ a w h. h) (λ w h. h.0.grown))
                          (λ _.
                            Triple-bind _ _
                              (mark_delivered-Triple (λ w fs h. h) key c.destination
                                (λ w h. h.0.grown)
                                (λ w h. (
                                  Inv-marked key c.destination p w.deliveries h.0 h.1,
                                  Grown-insert_delivery ds w.deliveries key c.destination h.0.grown,
                                )))
                              (λ _. Triple-pure _ (λ w h. (h, refl))))))
                    (λ w h. (h.0, sym h.1 ∙ e)) (λ a w q. q) (λ w q. q))))
    where
      severity : Severity
      severity = c.notification_builder.severity i

      key : String
      key = idempotency_key x c.destination i
