-- ===== src/Rag/Reranker.antt =====
-- src/eset_incident_ai/rag/reranker.py and citation_builder.py
use eset_incident_ai.Prelude.{ℕ, String, List, map, ◌≡◌}
use eset_incident_ai.Domain.Analysis.{RetrievedEvidence}
use eset_incident_ai.Sorting.{falling, sorted}
use eset_incident_ai.Sorting.Order.{InOrder, has_key, filter, sorted-InOrder, sorted-filter}

abbrev pub relevance : RetrievedEvidence → ℕ
relevance e = e.relevance_score

-- `sorted(evidence, key=…, reverse=True)`.
unfoldable pub by_relevance : List RetrievedEvidence → List RetrievedEvidence
by_relevance evidence = sorted falling relevance evidence

-- `CitationBuilder.evidence_ids`.
unfoldable pub citations : List RetrievedEvidence → List String
citations evidence = map (λ e. e.evidence_id) evidence

-- Reranking puts the evidence in falling order of relevance, and for each score the pieces of evidence
-- with that score are the same as before, in the same order: none is lost, none is added, and equals
-- keep their places.
pub by_relevance-InOrder :
    (evidence : List RetrievedEvidence)
    → InOrder falling relevance (by_relevance evidence)
      × ((score : ℕ)
          → filter (has_key falling relevance score) (by_relevance evidence)
            ≡ filter (has_key falling relevance score) evidence)
unfolding by_relevance
by_relevance-InOrder evidence = (
  sorted-InOrder falling relevance evidence,
  λ score. sorted-filter falling relevance score evidence,
)
