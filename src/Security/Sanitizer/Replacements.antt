-- ===== src/Security/Sanitizer/Replacements.antt =====
-- What the sanitizer records, and what it leaves alone.
use Prim.Native.Char.{code}
use Prim.Native.String.{String}
use eset_incident_ai.Prelude.{ℕ, ◌≡◌, refl, ◌⊎◌, Option, none, some, [], ◌∷◌, All}
use eset_incident_ai.Regex.{CharClass, Regex, match_at, sub_from}
use eset_incident_ai.Security.Sanitizer.{
  Sanitizer, pseudonym, email_re, windows_path_re, windows_legacy_home_re, unix_home_re,
  domain_account_re, token_re, replace_with, always, sanitize_text,
}

module _ (is_word : CharClass) (r : Regex) where
  -- The pattern matches at no place of the text.
  abbrev pub Clean : Option ℕ → String → Type 0
  Clean before String.[] = Unit
  Clean before (String.◌∷◌ c t) =
      (match_at is_word r (λ q. some q)
          (record { before = before; rest = String.◌∷◌ c t; count = 0 })
        ≡ none)
      × Clean (some (code c)) t

module _ {ℓ} (is_word : CharClass) {S : Type ℓ} (r : Regex)
    (replace : String → S → String × S) where
  sub_from-Clean :
      (before : Option ℕ) (text : String) (s : S)
      → Clean is_word r before text
      → sub_from is_word r replace 0 before text s ≡ (text, s)
  unfolding sub_from
  sub_from-Clean before String.[] s h = refl
  sub_from-Clean before (String.◌∷◌ c t) s h =
      rw (h.0, sub_from, sub_from-Clean (some (code c)) t s h.1) refl

module _ (z : Sanitizer) where
  -- An entry of the dictionary: a text with its pseudonym as a mail address or as an account.
  abbrev pub IsPseudonym : String × String → Type 0
  IsPseudonym (original, masked) =
      (masked ≡ pseudonym z "EMAIL" original) ⊎ (masked ≡ pseudonym z "ACCOUNT" original)

-- A text in which none of the six patterns matches anywhere is not changed, and nothing is recorded.
pub sanitize_text-Clean :
    (z : Sanitizer) (text : String)
    → All
        (λ r. Clean z.is_word r none text)
        (email_re ∷ windows_path_re ∷ windows_legacy_home_re ∷ unix_home_re ∷ domain_account_re
          ∷ token_re ∷ [])
    → sanitize_text z text ≡ record { text = text; replacements = [] }
unfolding sanitize_text
sanitize_text-Clean z text (c1, (c2, (c3, (c4, (c5, (c6, _)))))) =
    rw
      (
        sub_from-Clean z.is_word email_re (replace_with z "EMAIL") none text [] c1,
        sub_from-Clean z.is_word windows_path_re (always z "<USER_HOME>\\") none text [] c2,
        sub_from-Clean z.is_word windows_legacy_home_re (always z "<USER_HOME>\\") none text [] c3,
        sub_from-Clean z.is_word unix_home_re (always z "<USER_HOME>/") none text [] c4,
        sub_from-Clean z.is_word domain_account_re (replace_with z "ACCOUNT") none text [] c5,
        sub_from-Clean z.is_word token_re (always z "<SECRET_REDACTED>") none text [] c6,
      )
      refl
