-- ===== src/Domain/Severity.antt =====
-- src/eset_incident_ai/domain/enums/severity.py: the severity levels, their parser and their order.
pub mod Parse
use Prim.Native.Char.{code}
use eset_incident_ai.Prelude.{
  ℕ, zero, suc, ◌-◌, String, Bool, true, false, ◌||◌, List, [], ◌∷◌, map, leb, ◌==◌, ◌&&◌, drop,
  codes, is_space, if◌then◌else◌, ◌+◌,
}
use eset_incident_ai.Value.{Value, text}
use eset_incident_ai.Externals.{Externals, str_or}

pub data Severity : Type 0 where
  low medium high critical : Severity

pub Severity-discrete : Discrete Severity
Severity-discrete = hlevel

-- `severity.value`.
abbrev pub value : Severity → String
value low = "low"
value medium = "medium"
value high = "high"
value critical = "critical"

unfoldable pub rank : Severity → ℕ
rank low = 0
rank medium = 1
rank high = 2
rank critical = 3

unfoldable pub meets_threshold : Severity → Severity → Bool
unfolding rank
meets_threshold s minimum = leb (rank minimum) (rank s)

-- `severity in {Severity.HIGH, Severity.CRITICAL}`.
abbrev pub is_severe : Severity → Bool
is_severe low = false
is_severe medium = false
is_severe high = true
is_severe critical = true

-- `str.lower` on the characters that matter to the comparison below: the ASCII letters.
abbrev lower_char : ℕ → ℕ
lower_char c = if leb b'A' c && leb c b'Z' then c + 32 else c

abbrev lstrip : List ℕ → List ℕ
lstrip [] = []
lstrip (c ∷ cs) = if is_space c then lstrip cs else c ∷ cs

-- `rstrip` drops a character when all that follows it is dropped too.
abbrev keep_last : ℕ → List ℕ → List ℕ
keep_last c [] = if is_space c then [] else c ∷ []
keep_last c (d ∷ ds) = c ∷ d ∷ ds

abbrev rstrip : List ℕ → List ℕ
rstrip [] = []
rstrip (c ∷ cs) = keep_last c (rstrip cs)

abbrev starts_with : List ℕ → List ℕ → Bool
starts_with [] s = true
starts_with (p ∷ ps) [] = false
starts_with (p ∷ ps) (c ∷ cs) = c == p && starts_with ps cs

abbrev code_eq : List ℕ → List ℕ → Bool
code_eq [] [] = true
code_eq [] (d ∷ ds) = false
code_eq (c ∷ cs) [] = false
code_eq (c ∷ cs) (d ∷ ds) = c == d && code_eq cs ds

abbrev marker : List ℕ
marker = codes "_level_"

-- `text.split("_level_")[-1]`: `part` is what follows the last separator found so far, and `skip`
-- counts the characters of a separator that are still to be passed.
last_part : ℕ → List ℕ → List ℕ → List ℕ
last_part skip part [] = part
last_part (suc skip) part (c ∷ cs) = last_part skip part cs
last_part zero part (c ∷ cs) =
    let hit = starts_with marker (c ∷ cs) in
    last_part (if hit then 6 else 0) (if hit then drop 7 (c ∷ cs) else part) cs

-- `str(text).strip().lower().split("_level_")[-1]`.
normalize : List ℕ → List ℕ
unfolding last_part
normalize s = let t = map lower_char (rstrip (lstrip s)) in last_part 0 t t

-- The two membership tests of `parse`, and its last line.
by_name : List ℕ → Severity
by_name t =
    if code_eq t (codes "informational")
      || code_eq t (codes "info")
      || code_eq t (codes "unspecified")
    then low
    else if code_eq t (codes "low")
    then low
    else if code_eq t (codes "medium")
    then medium
    else if code_eq t (codes "high")
    then high
    else if code_eq t (codes "critical")
    then critical
    else low

module _ (x : Externals) where
  unfoldable pub parse : Value → Severity
  unfolding normalize by_name
  parse v = by_name (normalize (codes (str_or x v (text "low"))))
