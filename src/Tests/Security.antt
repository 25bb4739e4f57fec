-- ===== src/Tests/Security.antt =====
-- A decision of the policy.
use eset_incident_ai.Prelude.{◌≡◌, ◌↔◌, ◌⊎◌, true, none, [], ◌∷◌}
use eset_incident_ai.Domain.Severity.{high, is_severe}
use eset_incident_ai.Domain.Analysis.{
  IncidentAnalysisResult, immediate, requires_destructive_approval,
}
use eset_incident_ai.Security.OutputPolicy.{evaluate}
use eset_incident_ai.Security.OutputPolicy.Decisions.{IsHarmless, Distinct, evaluate-decides}

abbrev isolation : IncidentAnalysisResult
isolation = record {
  root_cause = record {
    executive_summary = "Malware";
    direct_cause = [];
    root_causes = [];
    attack_path = [];
    affected_assets = [];
    false_positive_probability = 0;
    unknowns = [];
    additional_checks = [];
  };
  remediation =
      record {
        priority = immediate;
        action = "Isolate the device";
        rationale = "It spreads";
        rollback = none;
        requires_approval = true;
      }
      ∷ [];
  overall_confidence = 9000;
  evidence_coverage = 8000;
  limitations = [];
}

evaluate-decides_example :
    (((evaluate high isolation 0 0 0).allowed ≡ true) ↔ IsHarmless high isolation 0 0 0)
    × (((evaluate high isolation 0 0 0).requires_human_approval ≡ true)
        ↔ ((is_severe high ≡ true) ⊎ (requires_destructive_approval isolation ≡ true)))
    × Distinct (evaluate high isolation 0 0 0).reasons
evaluate-decides_example = evaluate-decides high isolation 0 0 0
