-- ===== src/UseCases/Detections/Rules/Branches.antt =====
-- What holds after a round, and the analysis of one detection.
use eset_incident_ai.Prelude.{
  ℕ, ◌⊎◌, inl, ◌-◌, Bool, true, false, Option, none, some, ◌*◌, if◌then◌else◌,
}
use eset_incident_ai.Value.{Fields}
use eset_incident_ai.Externals.{Externals}
use eset_incident_ai.World.{World}
use eset_incident_ai.Exec.{Exec}
use eset_incident_ai.Exec.Triple.{Triple, Stable, Triple-pure, Triple-bind, Triple-catch}
use eset_incident_ai.Domain.Severity.{Severity}
use eset_incident_ai.UseCases.Ports.{Analyzer}
use eset_incident_ai.UseCases.Ports.Triples.{analyze_incident-Triple}
use eset_incident_ai.UseCases.Detections.{
  Collector, Request, analyze_with, to_analysis_incident, microseconds_per_day,
}

-- What holds after a round, by whether the loop goes on.
abbrev pub Branch : Bool → Type 0 → Type 0 → Type 0
Branch true A B = A
Branch false A B = B

pub Branch-both : {A : Type 0} (b : Bool) → A → Branch b A A
Branch-both true a = a
Branch-both false a = a

pub Branch-either : {A : Type 0} (B : Type 0) (b : Bool) → A → Branch b A (A ⊎ B)
Branch-either B true a = a
Branch-either B false a = inl a

module _ {ℓ} {A : Type ℓ} {P P' E : World → Type 0} {Q : A → World → Type 0} where
  pub Branch-Triple :
      (b : Bool) (m n : Exec A)
      → Triple P m Q E
      → Triple P' n Q E
      → Triple (λ w. Branch b (P w) (P' w)) (if b then m else n) Q E
  Branch-Triple true m n tm tn = tm
  Branch-Triple false m n tm tn = tn

module _ (x : Externals) {P : World → Type 0} (stable : Stable P) where
  pub analyze_with-Triple :
      (o : Option Analyzer) (d : Fields) (s : Severity) → Triple P (analyze_with x o d s) (λ _. P) P
  unfolding analyze_with
  analyze_with-Triple none d s = Triple-pure _ (λ w h. h)
  analyze_with-Triple (some a) d s =
      Triple-catch _ _
        (Triple-bind _ _ (analyze_incident-Triple stable a (to_analysis_incident x d s) "default")
          (λ _. Triple-pure _ (λ w h. h)))
        (λ _. Triple-pure _ (λ w h. h))

-- `self._clock() - timedelta(days=backfill_window_days)`, where that is a date.
abbrev pub cutoff : Collector → Request → ℕ
cutoff c r = c.now - r.backfill_window_days * microseconds_per_day
