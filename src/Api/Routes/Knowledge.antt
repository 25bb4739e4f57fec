-- ===== src/Api/Routes/Knowledge.antt =====
-- src/eset_incident_ai/api/routes/knowledge.py and analyses.py, and the functions of
-- src/eset_incident_ai/api/dependencies.py that build their use cases. The search of the vector
-- repository is a parameter: the text, the tenant and the limit to the evidence.
use eset_incident_ai.Prelude.{ℕ, String, Bool, ◌&&◌, List, str_len}
use eset_incident_ai.Exec.{ok, Exec, query}
use eset_incident_ai.Domain.Analysis.{RetrievedEvidence, IncidentAnalysisResult}
use eset_incident_ai.Llm.LocalGateway.{analyze}
use eset_incident_ai.UseCases.Ports.{Analyzer, analyze_incident}
use eset_incident_ai.UseCases.Normalize.{IncidentDto, to_domain}
use eset_incident_ai.Api.Responses.{Route, serve, within}

-- `Query(min_length=low, max_length=high)`.
abbrev pub sized : ℕ → ℕ → String → Bool
sized low high s = within low high (str_len s)

abbrev pub Search : Type 0
Search = String → String → ℕ → List RetrievedEvidence

-- `SearchKnowledge.execute`.
unfoldable pub search_knowledge : Search → String → String → ℕ → Exec (List RetrievedEvidence)
search_knowledge search text tenant_scope limit = query (λ w. search text tenant_scope limit)

module _ (decimal : ℕ → String) (search : Search) where
  abbrev pub get_analyze_incident : Analyzer
  get_analyze_incident = record { search = search; analyze = analyze decimal }

  -- `GET /knowledge/search`.
  unfoldable pub search_route : String → String → ℕ → Route (List RetrievedEvidence)
  search_route text tenant_scope limit =
      serve (ok search) (sized 1 500 text && (sized 1 100 tenant_scope && within 1 50 limit))
        (λ s. search_knowledge s text tenant_scope limit)

  -- `POST /analyses/run`.
  unfoldable pub run_analysis_route : IncidentDto → String → Route IncidentAnalysisResult
  run_analysis_route incident tenant_scope =
      serve (ok get_analyze_incident) (sized 1 100 tenant_scope)
        (λ a. analyze_incident a (to_domain incident) tenant_scope)
