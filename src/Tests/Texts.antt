-- ===== src/Tests/Texts.antt =====
-- Texts that are sanitized, stored and sent, and an analysis by the local rules.
use eset_incident_ai.Prelude.{
  ℕ, ◌≡◌, ◌↔◌, refl, String, true, false, none, some, [], ◌∷◌, All, arith,
}
use eset_incident_ai.Domain.Severity.{medium}
use eset_incident_ai.Domain.Incident.{Incident}
use eset_incident_ai.Domain.Analysis.{AnalysisIsValid}
use eset_incident_ai.Regex.{match_at, sub_from}
use eset_incident_ai.Security.Sanitizer.{
  Sanitizer, set_default, pseudonym, sanitize_text, email_re, windows_path_re,
  windows_legacy_home_re, unix_home_re, domain_account_re, token_re,
}
use eset_incident_ai.Security.Sanitizer.Replacements.{Clean, sanitize_text-Clean}
use eset_incident_ai.Security.OutputPolicy.{evaluate}
use eset_incident_ai.Persistence.Approvals.Payload.Safe.{Safe}
use eset_incident_ai.Discord.Builders.{build_incident, build_detection}
use eset_incident_ai.Discord.Builders.Fit.{MessageFits, build-MessageFits}
use eset_incident_ai.Llm.LocalGateway.{analyze}
use eset_incident_ai.Llm.LocalGateway.Bounds.{WellFounded, analyze-AnalysisIsValid}
use eset_incident_ai.Tests.Fixtures.{plain, alert}

-- The digest is the same for every value, and no letter beyond ASCII is a word character.
abbrev masking : Sanitizer
masking = record { hmac_secret = "k"; hmac_sha256 = λ secret v. "0a1b2c3d4e"; is_word = λ c. false }

home : (sanitize_text masking "x /home/kim/a").text ≡ "x <USER_HOME>/a"
unfolding sanitize_text match_at sub_from set_default pseudonym
home = refl

nothing_found :
    All
      (λ r. Clean masking.is_word r none "ok")
      (email_re ∷ windows_path_re ∷ windows_legacy_home_re ∷ unix_home_re ∷ domain_account_re
        ∷ token_re ∷ [])
unfolding match_at
nothing_found = (
  (refl, (refl, tt)),
  (
    (refl, (refl, tt)),
    ((refl, (refl, tt)), ((refl, (refl, tt)), ((refl, (refl, tt)), ((refl, (refl, tt)), tt)))),
  ),
)

nothing_replaced : sanitize_text masking "ok" ≡ record { text = "ok"; replacements = [] }
nothing_replaced = sanitize_text-Clean masking "ok" nothing_found

abbrev two_digits : ℕ → String
two_digits n = "42"

build-MessageFits_example :
    MessageFits (build_incident plain masking two_digits (alert "a") none)
    × MessageFits (build_detection plain masking two_digits (alert "a") none)
build-MessageFits_example =
    build-MessageFits plain masking two_digits (λ n h. omega arith) none tt (alert "a")

abbrev suspicious : Incident
suspicious = record {
  id = "a";
  external_id = "a";
  title = "Malware";
  severity = medium;
  detected_at = none;
  summary = some "Seen twice";
  normalized_payload = alert "a";
  detections = [];
}

analyze-AnalysisIsValid_example :
    AnalysisIsValid (analyze two_digits suspicious [])
    × (((evaluate medium (analyze two_digits suspicious []) 0 0 0).allowed ≡ true)
        ↔ WellFounded suspicious [])
analyze-AnalysisIsValid_example = analyze-AnalysisIsValid two_digits suspicious []
