-- ===== src/Security/OutputPolicy/Decisions.antt =====
-- What the policy decides.
use eset_incident_ai.Prelude.{
  ℕ, ◌≡◌, ◌≤◌, ◌↔◌, refl, String, true, false, ◌⊎◌, inl, inr, List, [], ◌∷◌, str_mem, arith,
  Bool-cases, eq_iff, eq_refl,
}
use eset_incident_ai.Domain.Severity.{Severity, is_severe}
use eset_incident_ai.Domain.Analysis.{IncidentAnalysisResult, requires_destructive_approval}
use eset_incident_ai.Security.OutputPolicy.{unique, reasons_of, evaluate}

-- What an analysis must satisfy to be sent without a review.
pub record IsHarmless (severity : Severity) (analysis : IncidentAnalysisResult)
    (unsupported pii secrets : ℕ) : Type 0 where
  pub not_severe : is_severe severity ≡ false
  pub not_destructive : requires_destructive_approval analysis ≡ false
  pub all_supported : unsupported ≡ 0
  pub no_pii : pii ≡ 0
  pub no_secrets : secrets ≡ 0
  pub confident : 8000 ≤ analysis.overall_confidence
  pub covered : 7500 ≤ analysis.evidence_coverage

-- No text of the list stands in it twice.
abbrev pub Distinct : List String → Type 0
Distinct [] = Unit
Distinct (r ∷ rs) = (str_mem r rs ≡ false) × Distinct rs

module _ (severity : Severity) (analysis : IncidentAnalysisResult)
    (unsupported pii secrets : ℕ) where
  allowed-IsHarmless :
      (evaluate severity analysis unsupported pii secrets).allowed ≡ true
      → IsHarmless severity analysis unsupported pii secrets
  unfolding evaluate reasons_of
  allowed-IsHarmless h = ground (arith, h)

  IsHarmless-allowed :
      IsHarmless severity analysis unsupported pii secrets
      → (evaluate severity analysis unsupported pii secrets).allowed ≡ true
  unfolding evaluate reasons_of
  IsHarmless-allowed h = ground (arith, h)

seen-unique :
    (r : String) (seen rs : List String)
    → str_mem r seen ≡ true
    → str_mem r (unique seen rs) ≡ false
unfolding unique
seen-unique r seen [] h = refl
seen-unique r seen (y ∷ rs) h = elim (Bool-cases (str_mem y seen)) [
  | inl old ↦ rw old (seen-unique r seen rs h)
  | inr new ↦
      rw new (ground (arith, seen-unique r (y ∷ seen) rs (ground (arith, h)), eq_iff y r, h, new))
]

unique-Distinct : (seen rs : List String) → Distinct (unique seen rs)
unfolding unique
unique-Distinct seen [] = tt
unique-Distinct seen (y ∷ rs) = elim (Bool-cases (str_mem y seen)) [
  | inl old ↦ rw old (unique-Distinct seen rs)
  | inr new ↦
      rw new
        (seen-unique y (y ∷ seen) rs (ground (arith, eq_refl y)), unique-Distinct (y ∷ seen) rs)
]

-- The policy allows a notification exactly if the severity is low or medium, no action needs
-- approval, there is no unsupported claim, finding of personal data or finding of a secret, the
-- confidence is at least 0.80 and the evidence coverage at least 0.75. It asks for a person's review
-- exactly if the severity is high or critical or an action needs approval, and never names a reason
-- twice.
pub evaluate-decides :
    (severity : Severity) (analysis : IncidentAnalysisResult) (unsupported pii secrets : ℕ)
    → let decision = evaluate severity analysis unsupported pii secrets in
      ((decision.allowed ≡ true) ↔ IsHarmless severity analysis unsupported pii secrets)
      × ((decision.requires_human_approval ≡ true)
          ↔ ((is_severe severity ≡ true) ⊎ (requires_destructive_approval analysis ≡ true)))
      × Distinct decision.reasons
unfolding evaluate
evaluate-decides severity analysis unsupported pii secrets = (
  (
    allowed-IsHarmless severity analysis unsupported pii secrets,
    IsHarmless-allowed severity analysis unsupported pii secrets,
  ),
  ground arith,
  unique-Distinct [] (reasons_of severity analysis unsupported pii secrets),
)
