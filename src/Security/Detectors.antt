-- ===== src/Security/Detectors.antt =====
-- src/eset_incident_ai/security/secret_detector.py and prompt_injection_filter.py
pub mod Found
use Prim.Native.String.{String}
use eset_incident_ai.Prelude.{
  ℕ, Bool, true, false, not, ◌||◌, ◌&&◌, List, [], ◌∷◌, ◌++◌, map, leb, ◌==◌, none, is_space,
}
use eset_incident_ai.Regex.{
  CharClass, Regex, boundary, one, many, then_match, or_match, search_from, find_from, exactly,
  is_letter, some_of, literal, any_case, word_in_any_case, maybe, at_least,
}
use eset_incident_ai.Sorting.{rising, sorted}

pub record SecretFinding : Type 0 where
  pub kind : String
  pub start : ℕ
  pub end : ℕ

abbrev visible : CharClass
visible = λ c. not (is_space c)

-- `SECRET_PATTERNS`.
abbrev discord_webhook : Regex
discord_webhook = then_match (literal "https://discord") (
    then_match (maybe (literal "app"))
      (then_match (literal ".com/api/webhooks/") (some_of visible)))

-- `[a-z0-9._~+/=-]` under `(?i)`.
abbrev bearer_char : CharClass
bearer_char = λ c.
    is_letter c
    || (leb b'0' c && leb c b'9')
    || c == b'.'
    || c == b'_'
    || c == b'~'
    || c == b'+'
    || c == b'/'
    || c == b'='
    || c == b'-'
    || c == 8490
    || c == 383

abbrev bearer_token : Regex
bearer_token = then_match boundary (
    then_match (word_in_any_case "bearer")
      (then_match (some_of is_space) (at_least 20 bearer_char)))

abbrev joint : Regex
joint = maybe (one (λ c. c == b'_' || c == b'-'))

abbrev generic_secret : Regex
generic_secret = then_match boundary (
    then_match
      (or_match (then_match (word_in_any_case "api") (then_match joint (word_in_any_case "key"))) (
        or_match
          (then_match (word_in_any_case "client") (then_match joint (word_in_any_case "secret")))
          (word_in_any_case "password")))
      (then_match (many is_space) (
        then_match (one (λ c. c == b':' || c == b'='))
          (then_match (many is_space) (some_of visible)))))

-- The characters that `.` matches.
abbrev on_line : CharClass
on_line = λ c. not (c == 10)

-- `INJECTION_PATTERNS`.
abbrev pub injection_patterns : List Regex
injection_patterns =
    then_match (word_in_any_case "ignore ") (
      then_match (maybe (word_in_any_case "all ")) (
        then_match (or_match (word_in_any_case "previous") (word_in_any_case "prior"))
          (word_in_any_case " instructions")))
    ∷ then_match (word_in_any_case "print ") (
        then_match (maybe (word_in_any_case "the ")) (
          or_match (word_in_any_case "system prompt") (
            or_match (word_in_any_case "secret")
              (or_match (word_in_any_case "token") (word_in_any_case "webhook")))))
    ∷ then_match (word_in_any_case "send ")
        (then_match (many on_line) (word_in_any_case "environment variables"))
    ∷ then_match (word_in_any_case "curl ")
        (then_match (many on_line) (word_in_any_case "metadata"))
    ∷ []

module _ (is_word : CharClass) where
  abbrev found : String → String → Regex → List SecretFinding
  found text kind r =
      map (λ m. record { kind = kind; start = m.0; end = m.1 }) (find_from is_word r 0 none 0 text)

  -- The findings before they are sorted: those of one pattern after those of another.
  unfoldable pub all_findings : String → List SecretFinding
  all_findings text =
      found text "discord_webhook" discord_webhook
      ++ found text "bearer_token" bearer_token
      ++ found text "generic_secret" generic_secret

  -- `SecretDetector.find`.
  unfoldable pub find : String → List SecretFinding
  find text = sorted rising (λ f. f.start) (all_findings text)

  abbrev pub search_any : List Regex → String → Bool
  search_any [] text = false
  search_any (r ∷ rs) text = search_from is_word r none text || search_any rs text

  -- `PromptInjectionFilter.contains_suspicious_instruction`.
  unfoldable pub contains_suspicious_instruction : String → Bool
  contains_suspicious_instruction text = search_any injection_patterns text
