-- ===== src/Tests/Orders.antt =====
-- Evidence, findings and instructions in texts, and a risk score.
use eset_incident_ai.Prelude.{ℕ, ◌≡◌, ◌≤◌, String, false, none, List, [], ◌∷◌, arith}
use eset_incident_ai.Domain.Severity.{medium, high, rank}
use eset_incident_ai.Domain.Analysis.{RetrievedEvidence}
use eset_incident_ai.Domain.RiskScoring.{score, score-monotone}
use eset_incident_ai.Sorting.{rising, falling}
use eset_incident_ai.Sorting.Order.{InOrder, has_key, filter}
use eset_incident_ai.Rag.Reranker.{relevance, by_relevance, by_relevance-InOrder}
use eset_incident_ai.Security.Detectors.{all_findings, find}
use eset_incident_ai.Security.Detectors.Found.{find-InOrder}

abbrev piece : String → ℕ → RetrievedEvidence
piece id relevance_score = record {
  evidence_id = id;
  source_type = "knowledge";
  source_id = id;
  title = id;
  excerpt = "";
  relevance_score = relevance_score;
  occurred_at = none;
  metadata = [];
}

abbrev pieces : List RetrievedEvidence
pieces = piece "a" 5000 ∷ piece "b" 9000 ∷ piece "c" 5000 ∷ []

pieces-InOrder :
    InOrder falling relevance (by_relevance pieces)
    × ((k : ℕ)
        → filter (has_key falling relevance k) (by_relevance pieces)
          ≡ filter (has_key falling relevance k) pieces)
pieces-InOrder = by_relevance-InOrder pieces

abbrev leak : String
leak = "password: x and api_key=y"

leak-InOrder :
    InOrder rising (λ f. f.start) (find (λ c. false) leak)
    × ((k : ℕ)
        → filter (has_key rising (λ f. f.start) k) (find (λ c. false) leak)
          ≡ filter (has_key rising (λ f. f.start) k) (all_findings (λ c. false) leak))
leak-InOrder = find-InOrder (λ c. false) leak

medium_below_high : rank medium ≤ rank high
unfolding rank
medium_below_high = omega arith

score-monotone_example :
    (25 ≤ score medium 2) × (score medium 2 ≤ score high 9) × (score high 9 ≤ 100)
score-monotone_example = score-monotone medium high 2 9 medium_below_high (omega arith)
