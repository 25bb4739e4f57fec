-- ===== src/Security/OutputPolicy.antt =====
-- src/eset_incident_ai/security/output_policy.py: may an analysis be sent without a person's review.
pub mod Decisions
use eset_incident_ai.Prelude.{
  ℕ, String, Bool, true, false, ◌||◌, List, [], ◌∷◌, ◌++◌, ltb, str_mem, if◌then◌else◌,
}
use eset_incident_ai.Domain.Severity.{Severity, is_severe}
use eset_incident_ai.Domain.Analysis.{IncidentAnalysisResult, requires_destructive_approval}

pub record NotificationPolicyDecision : Type 0 where
  pub allowed : Bool
  pub requires_human_approval : Bool
  pub reasons : List String

-- `tuple(dict.fromkeys(reasons))`: the first of equal texts stays. `seen` are those before.
unfoldable pub unique : List String → List String → List String
unique seen [] = []
unique seen (r ∷ rs) =
    let later = unique (r ∷ seen) rs in
    let skipped = unique seen rs in if str_mem r seen then skipped else r ∷ later

abbrev no_reasons : List String → Bool
no_reasons [] = true
no_reasons (r ∷ rs) = false

-- `if …: reasons.append(reason)`.
abbrev append_if : Bool → String → List String → List String
append_if b reason reasons = if b then reasons ++ reason ∷ [] else reasons

-- `requires_approval` at the end, and `reasons` before the last statement.
abbrev pub requires_approval : Severity → IncidentAnalysisResult → Bool
requires_approval severity analysis = is_severe severity || requires_destructive_approval analysis

unfoldable pub reasons_of : Severity → IncidentAnalysisResult → ℕ → ℕ → ℕ → List String
reasons_of severity analysis unsupported_claim_count pii_finding_count secret_finding_count =
    append_if (requires_approval severity analysis) "human_approval_required" (
      append_if (ltb analysis.evidence_coverage 7500) "evidence_coverage_below_threshold" (
        append_if (ltb analysis.overall_confidence 8000) "confidence_below_auto_notify_threshold" (
          append_if (ltb 0 secret_finding_count) "secret_findings_present" (
            append_if (ltb 0 pii_finding_count) "pii_findings_present" (
              append_if (ltb 0 unsupported_claim_count) "unsupported_claims_present" (
                append_if (requires_destructive_approval analysis) "destructive_action_recommended"
                  []))))))

unfoldable pub evaluate : Severity → IncidentAnalysisResult → ℕ → ℕ → ℕ → NotificationPolicyDecision
evaluate severity analysis unsupported_claim_count pii_finding_count secret_finding_count =
    let reasons =
      reasons_of severity analysis unsupported_claim_count pii_finding_count secret_finding_count in
    record {
      allowed = no_reasons reasons;
      requires_human_approval = requires_approval severity analysis;
      reasons = unique [] reasons;
    }
