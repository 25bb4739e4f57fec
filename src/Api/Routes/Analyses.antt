-- ===== src/Api/Routes/Analyses.antt =====
-- An analysis by request: what is answered is an analysis, and nothing else changes.
use eset_incident_ai.Prelude.{ℕ, String, ◌≡◌, refl, true, ap, subst}
use eset_incident_ai.World.{World}
use eset_incident_ai.Exec.{ok}
use eset_incident_ai.Exec.Triple.{Post, Triple, Stable, Triple-answer-bind, Triple-call, returned}
use eset_incident_ai.Domain.Analysis.{IncidentAnalysisResult, AnalysisIsValid}
use eset_incident_ai.Domain.Incident.{Incident}
use eset_incident_ai.Llm.LocalGateway.{analyze}
use eset_incident_ai.Llm.LocalGateway.Bounds.{analyze-AnalysisIsValid}
use eset_incident_ai.UseCases.Ports.{analyze_incident}
use eset_incident_ai.UseCases.Normalize.{IncidentDto, to_domain}
use eset_incident_ai.Api.Routes.Limits.{Answered, serve-Answered}
use eset_incident_ai.Api.Routes.Knowledge.{Search, sized, get_analyze_incident, run_analysis_route}

-- Only the calls to come may differ.
abbrev pub SameTables : World → World → Type 0
SameTables w w' = w' ≡ record w { faults = w'.faults }

module _ (decimal : ℕ → String) (search : Search) (i : Incident) (tenant_scope : String)
    (w : World) where
  -- The analysis of what the search finds for the title.
  abbrev expected : IncidentAnalysisResult
  expected = analyze decimal i (search i.title tenant_scope 10)

  abbrev Answer : IncidentAnalysisResult → World → Type 0
  Answer a w' = (a ≡ expected) × AnalysisIsValid a × SameTables w w'

  SameTables-Stable : Stable (SameTables w)
  SameTables-Stable w' r h = ap (λ (v : World). record v { faults = r }) h

  analyze_incident-Triple :
      Triple
        (SameTables w)
        (analyze_incident (get_analyze_incident decimal search) i tenant_scope)
        Answer
        (SameTables w)
  unfolding analyze_incident
  analyze_incident-Triple =
      Triple-answer-bind (search i.title tenant_scope 10) _ SameTables-Stable (λ w' h. h)
        (Triple-call _ SameTables-Stable
          (λ w' h. ((refl, (analyze-AnalysisIsValid decimal i _).0, h), h, h)))

-- Whatever the external calls do, a request for an analysis with a valid tenant that is answered with a
-- result is answered with the analysis of the first ten search results for the title, whose fields are
-- within the bounds of its model; and whatever the answer, no table and no message changes.
pub run_analysis_route-answers :
    (decimal : ℕ → String) (search : Search) (incident : IncidentDto) (tenant_scope : String)
    (w : World)
    → sized 1 100 tenant_scope ≡ true
    → Answered
        (λ a w'.
          (a ≡ analyze decimal (to_domain incident) (search incident.title tenant_scope 10))
          × AnalysisIsValid a
          × SameTables w w')
        (SameTables w)
        (run_analysis_route decimal search incident tenant_scope w).0
        (run_analysis_route decimal search incident tenant_scope w).1
unfolding run_analysis_route to_domain
run_analysis_route-answers decimal search incident tenant_scope w valid =
    let i = to_domain incident in
    let a = get_analyze_incident decimal search in
    rw valid (
      serve-Answered (Answer decimal search i tenant_scope w) (SameTables w) (ok a)
        (λ c. analyze_incident c i tenant_scope) w
        (λ c same.
          subst
            (λ b.
              Post (Answer decimal search i tenant_scope w) (SameTables w)
                (analyze_incident b i tenant_scope w).0 (analyze_incident b i tenant_scope w).1)
            (ap (returned a) same)
            ((analyze_incident-Triple decimal search i tenant_scope w).at w refl))
        refl)
