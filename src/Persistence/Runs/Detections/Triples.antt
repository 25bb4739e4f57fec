-- ===== src/Persistence/Runs/Detections/Triples.antt =====
-- What the operations on `detection_collection_runs` do, under every list of faults.
use eset_incident_ai.Prelude.{String, ◌≡◌, refl, ap, Option, take}
use eset_incident_ai.World.{World}
use eset_incident_ai.Exec.Triple.{Triple, Stable, Triple-call, Triple-bind, Triple-pure}
use eset_incident_ai.Results.{CollectionResult}
use eset_incident_ai.Persistence.Runs.Detections.{
  ensure_table, add_success, add_cursor, add_failure, save_success, save_cursor, save_failure,
  latest, first,
}

module _ {P : World → Type 0} (stable : Stable P) where
  -- The newest row of the table.
  pub latest-Triple : Triple P latest (λ r w. P w × (r ≡ first (take 1 w.detection_runs.rows))) P
  unfolding latest ensure_table
  latest-Triple =
      Triple-bind {Q = λ runs w. P w × (runs ≡ take 1 w.detection_runs.rows)} _ _
        (Triple-bind _ _ (Triple-call _ stable (λ w p. (p, p, p)))
          (λ _. Triple-call _ stable (λ w p. ((p, refl), p, p))))
        (λ runs. Triple-pure _ (λ w h. (h.0, ap first h.1)))

module _ {P Q E : World → Type 0} (stable : Stable P) (failed : (w : World) → P w → E w) where
  pub save_success-Triple :
      (result : CollectionResult) (token : Option String)
      → ((w : World) → P w → Q (add_success result token w) × E (add_success result token w))
      → Triple P (save_success result token) (λ _. Q) E
  unfolding save_success ensure_table
  save_success-Triple result token h =
      Triple-bind _ _ (Triple-call _ stable (λ w p. (p, failed w p, failed w p)))
        (λ _. Triple-call _ stable (λ w p. ((h w p).0, failed w p, (h w p).1)))

  pub save_cursor-Triple :
      (token : Option String)
      → ((w : World) → P w → Q (add_cursor token w) × E (add_cursor token w))
      → Triple P (save_cursor token) (λ _. Q) E
  unfolding save_cursor ensure_table
  save_cursor-Triple token h =
      Triple-bind _ _ (Triple-call _ stable (λ w p. (p, failed w p, failed w p)))
        (λ _. Triple-call _ stable (λ w p. ((h w p).0, failed w p, (h w p).1)))

  pub save_failure-Triple :
      (message : String)
      → ((w : World) → P w → Q (add_failure message w) × E (add_failure message w))
      → Triple P (save_failure message) (λ _. Q) E
  unfolding save_failure ensure_table
  save_failure-Triple message h =
      Triple-bind _ _ (Triple-call _ stable (λ w p. (p, failed w p, failed w p)))
        (λ _. Triple-call _ stable (λ w p. ((h w p).0, failed w p, (h w p).1)))
