-- ===== src/Domain/RiskScoring.antt =====
-- src/eset_incident_ai/domain/services/risk_scoring_service.py
use eset_incident_ai.Prelude.{ℕ, ◌+◌, ◌*◌, ◌≤◌, min, arith}
use eset_incident_ai.Domain.Severity.{Severity, low, medium, high, critical, rank}

abbrev pub base : Severity → ℕ
base low = 25
base medium = 50
base high = 75
base critical = 95

unfoldable pub score : Severity → ℕ → ℕ
score severity detection_count = min 100 (base severity + min detection_count 5 * 2)

base-rank : (s t : Severity) → rank s ≤ rank t → base s ≤ base t
unfolding rank
base-rank low low h = omega arith
base-rank low medium h = omega arith
base-rank low high h = omega arith
base-rank low critical h = omega arith
base-rank medium low h = absurd (omega (arith, h))
base-rank medium medium h = omega arith
base-rank medium high h = omega arith
base-rank medium critical h = omega arith
base-rank high low h = absurd (omega (arith, h))
base-rank high medium h = absurd (omega (arith, h))
base-rank high high h = omega arith
base-rank high critical h = omega arith
base-rank critical low h = absurd (omega (arith, h))
base-rank critical medium h = absurd (omega (arith, h))
base-rank critical high h = absurd (omega (arith, h))
base-rank critical critical h = omega arith

base-bounds : (s : Severity) → (25 ≤ base s) × (base s ≤ 95)
base-bounds low = (omega arith, omega arith)
base-bounds medium = (omega arith, omega arith)
base-bounds high = (omega arith, omega arith)
base-bounds critical = (omega arith, omega arith)

-- A risk score lies between 25 and 100, and neither a higher severity nor more detections lower it.
pub score-monotone :
    (s t : Severity) (m n : ℕ)
    → rank s ≤ rank t
    → m ≤ n
    → (25 ≤ score s m) × (score s m ≤ score t n) × (score t n ≤ 100)
unfolding score
score-monotone s t m n le more =
    let (lower, upper) = base-bounds s in
    let below = base-rank s t le in (omega (arith, lower), omega (arith, below, more), omega arith)
