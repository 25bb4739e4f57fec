-- ===== src/Regex.antt =====
-- What the program uses of Python's `re`: a backtracking matcher for the constructs of its patterns,
-- and the replacement of all matches.
use Prim.Native.Char.{code}
use Prim.Native.String.{String}
use eset_incident_ai.Prelude.{
  ℕ, zero, suc, ◌+◌, ◌-◌, Bool, true, false, not, ◌&&◌, ◌||◌, Option, none, some, List, [], ◌∷◌,
  leb, ◌==◌, concat, prefix, if◌then◌else◌,
}

-- A class of characters, as a test on the code point.
abbrev pub CharClass : Type 0
CharClass = ℕ → Bool

-- `many` is a greedy `*` on a class: the patterns repeat nothing else. A lookbehind is one character
-- wide.
pub data Regex : Type 0 where
  nothing boundary : Regex
  one many not_behind : CharClass → Regex
  then_match or_match : Regex → Regex → Regex
  atomic not_ahead : Regex → Regex

-- A place in a text: the character before it, the text after it, and the characters matched so far.
pub record Place : Type 0 where
  pub before : Option ℕ
  pub rest : String
  pub count : ℕ

abbrev first_of : Option Place → Option Place → Option Place
first_of (some p) other = some p
first_of none other = other

abbrev run_class : CharClass → (Place → Option Place) → Option ℕ → String → ℕ → Option Place
run_class test k before String.[] n = k (record { before = before; rest = ""; count = n })
run_class test k before (String.◌∷◌ c s) n =
    let longer = run_class test k (some (code c)) s (suc n) in
    let here = k (record { before = before; rest = String.◌∷◌ c s; count = n }) in
    if test (code c) then first_of longer here else here

abbrev one_char : CharClass → (Place → Option Place) → String → ℕ → Option Place
one_char test k String.[] n = none
one_char test k (String.◌∷◌ c s) n =
    if test (code c) then k (record { before = some (code c); rest = s; count = suc n }) else none

abbrev holds : CharClass → Option ℕ → Bool
holds test none = false
holds test (some c) = test c

abbrev head_code : String → Option ℕ
head_code String.[] = none
head_code (String.◌∷◌ c s) = some (code c)

abbrev differ : Bool → Bool → Bool
differ true b = not b
differ false b = b

-- `is_word` is `\w` of Unicode.
module _ (is_word : CharClass) where
  -- The first way to match that `k` accepts.
  unfoldable pub match_at : Regex → (Place → Option Place) → Place → Option Place
  match_at nothing k p = k p
  match_at (one test) k p = one_char test k p.rest p.count
  match_at (many test) k p = run_class test k p.before p.rest p.count
  match_at (then_match r s) k p = match_at r (λ q. match_at s k q) p
  match_at (or_match r s) k p = first_of (match_at r k p) (match_at s k p)
  match_at (atomic r) k p = elim (match_at r (λ q. some q) p) [ none ↦ none | some q ↦ k q ]
  match_at (not_ahead r) k p = elim (match_at r (λ q. some q) p) [ none ↦ k p | some q ↦ none ]
  match_at (not_behind test) k p = if holds test p.before then none else k p
  match_at boundary k p =
      if differ (holds is_word p.before) (holds is_word (head_code p.rest)) then k p else none

  module _ {ℓ} {S : Type ℓ} (r : Regex) (replace : String → S → String × S) where
    -- `re.sub` with a function that keeps a state, for a pattern that matches no empty text: `skip`
    -- characters belong to the match found last.
    unfoldable pub sub_from : ℕ → Option ℕ → String → S → String × S
    sub_from skip before String.[] s = ("", s)
    sub_from (suc skip) before (String.◌∷◌ c t) s = sub_from skip (some (code c)) t s
    sub_from zero before (String.◌∷◌ c t) s =
        elim (match_at r (λ q. some q)
          (record { before = before; rest = String.◌∷◌ c t; count = 0 })) [
            | none ↦ (let (out, s') = sub_from 0 (some (code c)) t s in (String.◌∷◌ c out, s'))
            | some q ↦
                (let (masked, s1) = replace (prefix q.count (String.◌∷◌ c t)) s in
                  let (out, s2) = sub_from (q.count - 1) (some (code c)) t s1 in
                  (concat masked out, s2))
          ]

    abbrev pub sub : String → S → String × S
    sub text s = sub_from 0 none text s

-- Classes, and the patterns for a text.
abbrev pub exactly : ℕ → CharClass
exactly c = λ d. d == c

abbrev pub is_letter : CharClass
is_letter = λ c. (leb b'A' c && leb c b'Z') || (leb b'a' c && leb c b'z')

abbrev pub is_alnum : CharClass
is_alnum = λ c. is_letter c || (leb b'0' c && leb c b'9')

-- `r+` on a class.
abbrev pub some_of : CharClass → Regex
some_of test = then_match (one test) (many test)

abbrev pub literal : String → Regex
literal String.[] = nothing
literal (String.◌∷◌ c s) = then_match (one (exactly (code c))) (literal s)

module _ (is_word : CharClass) (r : Regex) where
  abbrev is_match : Option Place → Bool
  is_match none = false
  is_match (some p) = true

  -- `pattern.search(text)`, as whether there is a match.
  unfoldable pub search_from : Option ℕ → String → Bool
  search_from before String.[] =
      is_match (match_at is_word r (λ q. some q) (record { before = before; rest = ""; count = 0 }))
  search_from before (String.◌∷◌ c t) =
      is_match (
        match_at is_word r (λ q. some q)
          (record { before = before; rest = String.◌∷◌ c t; count = 0 }))
      || search_from (some (code c)) t

  -- `pattern.finditer(text)`, as start and end of each match, for a pattern that matches no empty text.
  unfoldable pub find_from : ℕ → Option ℕ → ℕ → String → List (ℕ × ℕ)
  find_from skip before at String.[] = []
  find_from (suc skip) before at (String.◌∷◌ c t) = find_from skip (some (code c)) (suc at) t
  find_from zero before at (String.◌∷◌ c t) =
      elim (match_at is_word r (λ q. some q)
        (record { before = before; rest = String.◌∷◌ c t; count = 0 })) [
          | none ↦ find_from 0 (some (code c)) (suc at) t
          | some q ↦ (at, at + q.count) ∷ find_from (q.count - 1) (some (code c)) (suc at) t
        ]

-- A letter, given in lower case, in either case; under `(?i)` two letters of other alphabets fold to
-- `k` and `s`.
abbrev pub any_case : ℕ → CharClass
any_case c = λ d.
    d == c || (is_letter c && d == c - 32) || (c == b'k' && d == 8490) || (c == b's' && d == 383)

abbrev pub word_in_any_case : String → Regex
word_in_any_case String.[] = nothing
word_in_any_case (String.◌∷◌ c s) = then_match (one (any_case (code c))) (word_in_any_case s)

-- `r?`, and `r{n,}` on a class.
abbrev pub maybe : Regex → Regex
maybe r = or_match r nothing

abbrev pub at_least : ℕ → CharClass → Regex
at_least zero test = many test
at_least (suc n) test = then_match (one test) (at_least n test)
