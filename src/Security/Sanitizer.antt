-- ===== src/Security/Sanitizer.antt =====
-- src/eset_incident_ai/security/sanitizer.py: personal data and secrets are taken out of a text.
pub mod Replacements
use Prim.Native.Char.{Char, code}
use Prim.Native.String.{String}
use eset_incident_ai.Prelude.{
  ℕ, ◌+◌, ◌-◌, Bool, true, false, not, ◌&&◌, ◌||◌, Option, none, some, List, [], ◌∷◌, ◌++◌, leb,
  ◌==◌, str_eq, concat, prefix, is_empty, is_space, if◌then◌else◌,
}
use eset_incident_ai.World.{Error, value_error}
use eset_incident_ai.Exec.{Outcome, ok, err}
use eset_incident_ai.Regex.{
  CharClass, Regex, nothing, boundary, one, many, not_behind, then_match, or_match, atomic,
  not_ahead, sub, exactly, is_letter, is_alnum, some_of, literal, word_in_any_case,
}

-- `hmac_sha256 secret value` is `hmac.new(secret, value, hashlib.sha256).hexdigest()`, `is_word` is
-- `\w`.
pub record Sanitizer : Type 0 where
  pub hmac_secret : String
  pub hmac_sha256 : String → String → String
  pub is_word : CharClass

-- `__init__`.
unfoldable pub sanitizer : String → (String → String → String) → CharClass → Outcome Sanitizer
sanitizer hmac_secret hmac_sha256 is_word =
    if is_empty hmac_secret
    then err (record { class = value_error; message = "hmac_secret is required" })
    else ok (record { hmac_secret = hmac_secret; hmac_sha256 = hmac_sha256; is_word = is_word })

-- A dictionary, in insertion order.
abbrev pub Replacements : Type 0
Replacements = List (String × String)

pub record SanitizationResult : Type 0 where
  pub text : String
  pub replacements : Replacements

-- `d.setdefault(key, default)`: the value, and the dictionary after.
unfoldable pub set_default : String → String → Replacements → String × Replacements
set_default key default [] = (default, (key, default) ∷ [])
set_default key default ((k, v) ∷ rest) =
    let r = set_default key default rest in
    if str_eq k key then (v, (k, v) ∷ rest) else (r.0, (k, v) ∷ r.1)

-- `.upper()` on hexadecimal digits.
abbrev upper_digit : Char → Char
upper_digit c =
    if code c == b'a'
    then "A"
    else if code c == b'b'
    then "B"
    else if code c == b'c'
    then "C"
    else if code c == b'd'
    then "D"
    else if code c == b'e'
    then "E"
    else if code c == b'f'
    then "F"
    else c

abbrev upper : String → String
upper String.[] = ""
upper (String.◌∷◌ c s) = String.◌∷◌ (upper_digit c) (upper s)

unfoldable pub pseudonym : Sanitizer → String → String → String
pseudonym z label value =
    concat label (concat "_" (upper (prefix 8 (z.hmac_sha256 z.hmac_secret value))))

abbrev backslash : ℕ
backslash = b'\\'

abbrev mail_name : CharClass
mail_name = λ c. is_alnum c || c == b'.' || c == b'_' || c == b'%' || c == b'+' || c == b'-'

abbrev mail_host : CharClass
mail_host = λ c. is_alnum c || c == b'.' || c == b'-'

-- `EMAIL_RE`.
abbrev pub email_re : Regex
email_re = then_match boundary (
    then_match (some_of mail_name) (
      then_match (one (exactly b'@')) (
        then_match (some_of mail_host) (
          then_match (one (exactly b'.'))
            (then_match (one is_letter) (then_match (some_of is_letter) boundary))))))

-- `[^\\\s]` and `[^/\s]`.
abbrev folder : ℕ → CharClass
folder separator = λ c. not (c == separator) && not (is_space c)

abbrev windows_home : String → Regex
windows_home parent = then_match (one is_letter) (
    then_match (literal parent) (then_match (some_of (folder backslash)) (one (exactly backslash))))

-- `WINDOWS_PATH_RE`, `WINDOWS_LEGACY_HOME_RE`, `UNIX_HOME_RE`.
abbrev pub windows_path_re : Regex
windows_path_re = windows_home ":\\Users\\"

abbrev pub windows_legacy_home_re : Regex
windows_legacy_home_re = windows_home ":\\Documents and Settings\\"

abbrev pub unix_home_re : Regex
unix_home_re =
    then_match (literal "/home/") (then_match (some_of (folder b'/')) (one (exactly b'/')))

abbrev account_char : CharClass
account_char = λ c. is_alnum c || c == b'.' || c == b'_' || c == b'-'

abbrev account_word : Regex
account_word = then_match (one is_alnum) (many account_char)

abbrev account_two_words : Regex
account_two_words = atomic (then_match account_word (then_match (one (exactly b' ')) account_word))

abbrev account : Regex → Regex → Regex
account domain user = then_match domain (then_match (one (exactly backslash)) user)

-- `DOMAIN_ACCOUNT_RE`.
abbrev pub domain_account_re : Regex
domain_account_re = then_match (not_behind (exactly backslash)) (
    then_match boundary (
      then_match
        (or_match (account account_two_words account_two_words)
          (or_match (account account_two_words account_word) (account account_word account_word)))
        (then_match boundary (
          not_ahead
            (then_match (many (λ c. account_char c || c == b' ')) (one (exactly backslash)))))))

abbrev is_quote : CharClass
is_quote = λ c. c == b'\'' || c == b'"'

-- `TOKEN_RE`.
abbrev pub token_re : Regex
token_re = then_match boundary (
    then_match
      (or_match (word_in_any_case "token") (
        or_match (word_in_any_case "secret")
          (or_match (word_in_any_case "password") (word_in_any_case "webhook"))))
      (then_match (one (λ c. c == b'=' || c == b':')) (
        then_match (many is_space) (
          then_match (or_match (one is_quote) nothing)
            (some_of (λ c. not (is_quote c) && not (is_space c)))))))

module _ (z : Sanitizer) where
  -- `replace_email`, `replace_account`.
  abbrev pub replace_with : String → String → Replacements → String × Replacements
  replace_with label original rs = set_default original (pseudonym z label original) rs

  abbrev pub always : String → String → Replacements → String × Replacements
  always masked original rs = (masked, rs)

  unfoldable pub sanitize_text : String → SanitizationResult
  sanitize_text text =
      let r1 = sub z.is_word email_re (replace_with "EMAIL") text [] in
      let r2 = sub z.is_word windows_path_re (always "<USER_HOME>\\") r1.0 r1.1 in
      let r3 = sub z.is_word windows_legacy_home_re (always "<USER_HOME>\\") r2.0 r2.1 in
      let r4 = sub z.is_word unix_home_re (always "<USER_HOME>/") r3.0 r3.1 in
      let r5 = sub z.is_word domain_account_re (replace_with "ACCOUNT") r4.0 r4.1 in
      let r6 = sub z.is_word token_re (always "<SECRET_REDACTED>") r5.0 r5.1 in
      record { text = r6.0; replacements = r6.1 }
