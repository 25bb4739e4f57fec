-- ===== src/Domain/Severity/Parse.antt =====
-- What the parser answers: the names of a level, in any case and behind any `…_LEVEL_` prefix.
use eset_incident_ai.Prelude.{◌≡◌, refl}
use eset_incident_ai.Value.{text}
use eset_incident_ai.Externals.{Externals, str}
use eset_incident_ai.Domain.Severity.{Severity, low, medium, high, critical, value, parse}

parse_eset_high : (x : Externals) → parse x (text " SEVERITY_LEVEL_HIGH") ≡ high
unfolding parse str
parse_eset_high x = refl

-- Reading a severity from its own value gives it back.
pub parse-value : (x : Externals) (s : Severity) → parse x (text (value s)) ≡ s
unfolding parse str
parse-value x low = refl
parse-value x medium = refl
parse-value x high = refl
parse-value x critical = refl
