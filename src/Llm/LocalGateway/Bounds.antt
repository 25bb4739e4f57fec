-- ===== src/Llm/LocalGateway/Bounds.antt =====
-- The analysis is one that pydantic accepts, and when the policy lets it through.
use eset_incident_ai.Prelude.{
  ℕ, ◌≤◌, ◌≡◌, ◌↔◌, refl, String, true, false, List, [], ◌∷◌, length, arith,
}
use eset_incident_ai.Domain.Severity.{Severity, low, medium, high, critical, is_severe}
use eset_incident_ai.Domain.Incident.{Incident}
use eset_incident_ai.Domain.Analysis.{RetrievedEvidence, AnalysisIsValid}
use eset_incident_ai.Llm.LocalGateway.{
  has_summary, evidence_ids, confidence_of, false_positive_probability, analyze,
}
use eset_incident_ai.Security.OutputPolicy.{evaluate}
use eset_incident_ai.Security.OutputPolicy.Decisions.{IsHarmless, evaluate-decides}

some_evidence : (evidence : List RetrievedEvidence) → 1 ≤ length (evidence_ids evidence)
unfolding evidence_ids
some_evidence [] = omega arith
some_evidence (e ∷ es) = omega arith

probability-bound : (s : Severity) → false_positive_probability s ≤ 10000
unfolding false_positive_probability
probability-bound low = omega arith
probability-bound medium = omega arith
probability-bound high = omega arith
probability-bound critical = omega arith

confidence-bound :
    (i : Incident) (evidence : List RetrievedEvidence) → confidence_of i evidence ≤ 8500
unfolding confidence_of
confidence-bound i evidence = omega arith

analyze-valid :
    (decimal : ℕ → String) (i : Incident) (evidence : List RetrievedEvidence)
    → AnalysisIsValid (analyze decimal i evidence)
unfolding analyze
analyze-valid decimal i evidence = record {
  direct_valid = (
    record {
      cites = some_evidence evidence;
      confidence_bounded = omega (arith, confidence-bound i evidence);
    },
    tt,
  );
  root_valid = (
    record {
      cites = some_evidence evidence;
      confidence_bounded = omega (arith, confidence-bound i evidence);
    },
    tt,
  );
  probability_bounded = probability-bound i.severity;
  confidence_bounded = omega (arith, confidence-bound i evidence);
  coverage_bounded = omega arith;
}

-- What an incident must have for its local analysis to be sent without a review.
abbrev pub WellFounded : Incident → List RetrievedEvidence → Type 0
WellFounded i evidence =
    (is_severe i.severity ≡ false) × (has_summary i.summary ≡ true) × (4 ≤ length evidence)

module _ (decimal : ℕ → String) (i : Incident) (evidence : List RetrievedEvidence) where
  IsHarmless-WellFounded :
      IsHarmless i.severity (analyze decimal i evidence) 0 0 0 → WellFounded i evidence
  unfolding analyze confidence_of
  IsHarmless-WellFounded h =
      (h.not_severe, ground (arith, h.confident, h.not_severe), ground (arith, h.covered))

  WellFounded-IsHarmless :
      WellFounded i evidence → IsHarmless i.severity (analyze decimal i evidence) 0 0 0
  unfolding analyze confidence_of
  WellFounded-IsHarmless (calm, told, enough) = record {
    not_severe = calm;
    not_destructive = ground (arith, calm);
    all_supported = refl;
    no_pii = refl;
    no_secrets = refl;
    confident = ground (arith, calm, told, enough);
    covered = omega (arith, enough);
  }

-- The local analysis keeps the bounds of every field that pydantic checks: each claim cites evidence
-- and all scores lie between 0 and 1. With nothing found by the other checks, the output policy lets
-- it through exactly if the severity is low or medium, the incident has a summary and there are at
-- least four pieces of evidence.
pub analyze-AnalysisIsValid :
    (decimal : ℕ → String) (i : Incident) (evidence : List RetrievedEvidence)
    → AnalysisIsValid (analyze decimal i evidence)
      × (((evaluate i.severity (analyze decimal i evidence) 0 0 0).allowed ≡ true)
          ↔ WellFounded i evidence)
analyze-AnalysisIsValid decimal i evidence =
    let (decides, _, _) = evaluate-decides i.severity (analyze decimal i evidence) 0 0 0 in
    (
      analyze-valid decimal i evidence,
      (
        (λ h. IsHarmless-WellFounded decimal i evidence (decides.0 h)),
        (λ h. decides.1 (WellFounded-IsHarmless decimal i evidence h)),
      ),
    )
