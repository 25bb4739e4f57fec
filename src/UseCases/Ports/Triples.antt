-- ===== src/UseCases/Ports/Triples.antt =====
-- An analysis changes no table.
use eset_incident_ai.Prelude.{String}
use eset_incident_ai.World.{World}
use eset_incident_ai.Exec.Triple.{Triple, Stable, Triple-call, Triple-bind}
use eset_incident_ai.Domain.Incident.{Incident}
use eset_incident_ai.UseCases.Ports.{Analyzer, analyze_incident}

pub analyze_incident-Triple :
    {P : World → Type 0}
    → Stable P
    → (a : Analyzer) (i : Incident) (tenant_scope : String)
    → Triple P (analyze_incident a i tenant_scope) (λ _. P) P
unfolding analyze_incident
analyze_incident-Triple stable a i tenant_scope =
    Triple-bind _ _ (Triple-call _ stable (λ w p. (p, p, p)))
      (λ _. Triple-call _ stable (λ w p. (p, p, p)))
