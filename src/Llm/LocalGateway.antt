-- ===== src/Llm/LocalGateway.antt =====
-- src/eset_incident_ai/infrastructure/llm/local_gateway.py: an analysis by fixed rules. Scores are
-- counted in ten-thousandths; the source's sums of floats are off by less than one of these, and by
-- too little to cross a threshold of the output policy.
pub mod Bounds
use eset_incident_ai.Prelude.{
  ℕ, ◌+◌, ◌-◌, ◌*◌, min, max, String, Bool, true, false, not, Option, none, some, List, [], ◌∷◌,
  map, take, length, concat, is_empty, if◌then◌else◌,
}
use eset_incident_ai.Domain.Severity.{Severity, low, medium, high, critical, is_severe, value}
use eset_incident_ai.Domain.Incident.{Incident}
use eset_incident_ai.Domain.Analysis.{
  IncidentAnalysisResult, RetrievedEvidence, immediate, short_term,
}

-- `bool(incident.summary)`.
abbrev pub has_summary : Option String → Bool
has_summary none = false
has_summary (some s) = not (is_empty s)

abbrev at_least_one : List String → List String
at_least_one [] = "no-supporting-evidence" ∷ []
at_least_one (i ∷ is) = i ∷ is

unfoldable pub evidence_ids : List RetrievedEvidence → List String
evidence_ids evidence = at_least_one (map (λ e. e.evidence_id) (take 5 evidence))

unfoldable pub confidence_of : Incident → List RetrievedEvidence → ℕ
confidence_of i evidence =
    min
      (3500
        + (if has_summary i.summary then 1500 else 0)
        + min (length evidence) 5 * 800
        + (if is_severe i.severity then 1000 else 0))
      8500

unfoldable pub false_positive_probability : Severity → ℕ
false_positive_probability high = 2500
false_positive_probability critical = 2500
false_positive_probability medium = 4000
false_positive_probability low = 5500

unfoldable pub direct_cause_claim : Incident → String
direct_cause_claim i =
    concat "Observed ESET incident severity is "
      (concat (value i.severity) "; direct cause should be confirmed with detection telemetry.")

-- `decimal` is Python's `str` of an integer.
unfoldable pub analyze : (ℕ → String) → Incident → List RetrievedEvidence → IncidentAnalysisResult
analyze decimal i evidence = record {
  root_cause = record {
    executive_summary = concat "Incident '" (
        concat i.title (
          concat "' requires investigation. The analysis used "
            (concat (decimal (length evidence)) " retrieved evidence item(s).")));
    direct_cause =
        record {
          claim = direct_cause_claim i;
          evidence_ids = evidence_ids evidence;
          confidence = confidence_of i evidence;
        }
        ∷ [];
    root_causes =
        record {
          claim = "Root cause is not confirmed without endpoint-level evidence.";
          evidence_ids = evidence_ids evidence;
          confidence = max (confidence_of i evidence - 2000) 1000;
        }
        ∷ [];
    attack_path = [];
    affected_assets = [];
    false_positive_probability = false_positive_probability i.severity;
    unknowns =
        "Endpoint process tree is not attached."
        ∷ "User and asset context may be redacted or unavailable." ∷ [];
    additional_checks =
        "Review ESET detection details and affected device timeline."
        ∷ "Compare indicators against internal allowlists and recent change records." ∷ [];
  };
  remediation =
      record {
        priority = immediate;
        action = "Validate the detection in ESET and confirm affected device scope.";
        rationale = "Initial validation reduces false positives before escalation.";
        rollback = none;
        requires_approval = false;
      }
      ∷ record {
        priority = short_term;
        action = "Isolate or contain affected endpoint only after human approval.";
        rationale = "Containment can disrupt business activity and requires operator review.";
        rollback = some "Remove isolation from the endpoint after approval if validated benign.";
        requires_approval = is_severe i.severity;
      }
      ∷ [];
  overall_confidence = confidence_of i evidence;
  evidence_coverage = min (length evidence * 2000) 10000;
  limitations =
      "Local deterministic analysis does not call an external LLM."
      ∷ "Findings are advisory and must be reviewed by a security operator." ∷ [];
}
