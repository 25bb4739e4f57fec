-- ===== src/Prelude/Text.antt =====
-- Python's `str` as the native `String`: the operations on whole texts that the program uses.
use Prim.Native.Nat.{ℕ, zero, suc, Ordering}
use Prim.Native.Char.{Char, code}
use Prim.Native.String.{String, compare}
use mathlib.Core.Bool.{Bool, true, false, ◌||◌, ◌&&◌}
use mathlib.Core.List.{List, [], ◌∷◌}
use text.Mathlib.Text.{◌==◌ as text_eq}
use eset_incident_ai.Prelude.Tests.{leb, ◌==◌, if◌then◌else◌}

-- `a == b` on two texts.
abbrev pub str_eq : String → String → Bool
str_eq = text_eq

-- `text in {a, b, …}`.
abbrev pub str_mem : String → List String → Bool
str_mem s [] = false
str_mem s (x ∷ xs) = str_eq x s || str_mem s xs

-- The code points of a text. `String` has its own `[]` and `∷`.
abbrev pub codes : String → List ℕ
codes String.[] = []
codes (String.◌∷◌ c s) = code c ∷ codes s

abbrev pub is_empty : String → Bool
is_empty String.[] = true
is_empty (String.◌∷◌ c s) = false

-- A text as the list of its characters, and back.
abbrev pub chars : String → List Char
chars String.[] = []
chars (String.◌∷◌ c s) = c ∷ chars s

abbrev pub of_chars : List Char → String
of_chars [] = ""
of_chars (c ∷ cs) = String.◌∷◌ c (of_chars cs)

-- `a + b`.
abbrev pub concat : String → String → String
concat String.[] t = t
concat (String.◌∷◌ c s) t = String.◌∷◌ c (concat s t)

-- `s[:n]`.
abbrev pub prefix : ℕ → String → String
prefix zero s = ""
prefix (suc n) String.[] = ""
prefix (suc n) (String.◌∷◌ c s) = String.◌∷◌ c (prefix n s)

-- `len(s)`.
abbrev pub str_len : String → ℕ
str_len String.[] = 0
str_len (String.◌∷◌ c s) = suc (str_len s)

-- The characters that `str.strip` takes off: those of `str.isspace`.
abbrev pub is_space : ℕ → Bool
is_space c =
    (leb 9 c && leb c 13)
    || (leb 28 c && leb c 32)
    || c == 133
    || c == 160
    || c == 5760
    || (leb 8192 c && leb c 8202)
    || c == 8232
    || c == 8233
    || c == 8239
    || c == 8287
    || c == 12288

-- `s.strip()`.
abbrev lstrip : String → String
lstrip String.[] = ""
lstrip (String.◌∷◌ c s) = if is_space (code c) then lstrip s else String.◌∷◌ c s

abbrev keep_last : Char → String → String
keep_last c String.[] = if is_space (code c) then "" else String.◌∷◌ c ""
keep_last c (String.◌∷◌ d s) = String.◌∷◌ c (String.◌∷◌ d s)

abbrev rstrip : String → String
rstrip String.[] = ""
rstrip (String.◌∷◌ c s) = keep_last c (rstrip s)

abbrev pub strip : String → String
strip s = rstrip (lstrip s)

-- `s.replace("\n", " ")`.
abbrev pub newlines_to_spaces : String → String
newlines_to_spaces String.[] = ""
newlines_to_spaces (String.◌∷◌ c s) =
    String.◌∷◌ (if code c == 10 then " " else c) (newlines_to_spaces s)

-- `separator.join(parts)`.
abbrev pub join : String → List String → String
join separator [] = ""
join separator (p ∷ []) = p
join separator (p ∷ q ∷ ps) = concat p (concat separator (join separator (q ∷ ps)))

-- `set.add` on a set that is kept sorted, so that `sorted(set)` is the list itself.
unfoldable pub add_key : String → List String → List String
add_key k [] = k ∷ []
add_key k (j ∷ js) = elim (compare k j) [
  | Ordering.lt ↦ k ∷ j ∷ js
  | Ordering.eq ↦ j ∷ js
  | Ordering.gt ↦ j ∷ add_key k js
]

-- `set.update(keys)`.
unfoldable pub add_keys : List String → List String → List String
add_keys [] js = js
add_keys (k ∷ ks) js = add_keys ks (add_key k js)
