-- ===== src/Domain/Analysis.antt =====
-- src/eset_incident_ai/domain/entities/analysis.py and evidence.py: what an analysis says, and the
-- evidence it rests on. A score (a `float` between 0.0 and 1.0) is counted in ten-thousandths.
use eset_incident_ai.Prelude.{ℕ, ◌≤◌, String, Bool, Option, List, any, length, All}

abbrev pub one : ℕ
one = 10000

pub record EvidenceClaim : Type 0 where
  pub claim : String
  pub evidence_ids : List String
  pub confidence : ℕ

pub record RootCauseAnalysis : Type 0 where
  pub executive_summary : String
  pub direct_cause : List EvidenceClaim
  pub root_causes : List EvidenceClaim
  pub attack_path : List String
  pub affected_assets : List String
  pub false_positive_probability : ℕ
  pub unknowns : List String
  pub additional_checks : List String

pub data Priority : Type 0 where
  immediate short_term long_term : Priority

pub record RemediationAction : Type 0 where
  pub priority : Priority
  pub action : String
  pub rationale : String
  pub rollback : Option String
  pub requires_approval : Bool

pub record IncidentAnalysisResult : Type 0 where
  pub root_cause : RootCauseAnalysis
  pub remediation : List RemediationAction
  pub overall_confidence : ℕ
  pub evidence_coverage : ℕ
  pub limitations : List String

abbrev pub requires_destructive_approval : IncidentAnalysisResult → Bool
requires_destructive_approval r = any (λ a. a.requires_approval) r.remediation

-- The field constraints that pydantic checks when a model is built.
pub record ClaimIsValid (c : EvidenceClaim) : Type 0 where
  pub cites : 1 ≤ length c.evidence_ids
  pub confidence_bounded : c.confidence ≤ one

pub record AnalysisIsValid (r : IncidentAnalysisResult) : Type 0 where
  pub direct_valid : All ClaimIsValid r.root_cause.direct_cause
  pub root_valid : All ClaimIsValid r.root_cause.root_causes
  pub probability_bounded : r.root_cause.false_positive_probability ≤ one
  pub confidence_bounded : r.overall_confidence ≤ one
  pub coverage_bounded : r.evidence_coverage ≤ one

pub record RetrievedEvidence : Type 0 where
  pub evidence_id : String
  pub source_type : String
  pub source_id : String
  pub title : String
  pub excerpt : String
  pub relevance_score : ℕ
  pub occurred_at : Option ℕ
  pub metadata : List (String × String)
