-- ===== src/Persistence/Runs/Incidents/Triples.antt =====
-- What the operations on `collection_runs` do, under every list of faults.
use eset_incident_ai.Prelude.{String}
use eset_incident_ai.World.{World}
use eset_incident_ai.Exec.Triple.{Triple, Stable, Triple-call, Triple-bind}
use eset_incident_ai.Results.{CollectionResult}
use eset_incident_ai.Persistence.Runs.Incidents.{
  ensure_table, add_success, add_failure, save_success, save_failure,
}

module _ {P Q E : World → Type 0} (stable : Stable P) (failed : (w : World) → P w → E w) where
  pub save_success-Triple :
      (result : CollectionResult)
      → ((w : World) → P w → Q (add_success result w) × E (add_success result w))
      → Triple P (save_success result) (λ _. Q) E
  unfolding save_success ensure_table
  save_success-Triple result h =
      Triple-bind _ _ (Triple-call _ stable (λ w p. (p, failed w p, failed w p)))
        (λ _. Triple-call _ stable (λ w p. ((h w p).0, failed w p, (h w p).1)))

  pub save_failure-Triple :
      (message : String)
      → ((w : World) → P w → Q (add_failure message w) × E (add_failure message w))
      → Triple P (save_failure message) (λ _. Q) E
  unfolding save_failure ensure_table
  save_failure-Triple message h =
      Triple-bind _ _ (Triple-call _ stable (λ w p. (p, failed w p, failed w p)))
        (λ _. Triple-call _ stable (λ w p. ((h w p).0, failed w p, (h w p).1)))
