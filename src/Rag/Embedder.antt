-- ===== src/Rag/Embedder.antt =====
-- src/eset_incident_ai/infrastructure/embeddings/local_embedder.py: the vector of a text, before it is
-- divided by its norm. A component is a sum of ones of either sign, so it is kept as how many of each it
-- has had; such sums are exact on floats.
pub mod Order
use Prim.Native.String.{String}
use Prim.Native.Char.{code}
use eset_incident_ai.Prelude.{
  none, ℕ, zero, suc, ◌+◌, ◌*◌, ◌%◌, Bool, true, false, ◌&&◌, ◌||◌, List, [], ◌∷◌, take, ◌==◌,
  prefix, if◌then◌else◌, map,
}
use eset_incident_ai.Regex.{CharClass, find_from, some_of}

-- A component of the vector: the ones that were added, and those that were taken off.
pub record Component : Type 0 where
  pub added : ℕ
  pub removed : ℕ

abbrev pub is_zero : Component → Bool
is_zero c = c.added == c.removed

-- `[0.0] * dimensions`.
abbrev pub zeros : ℕ → List Component
zeros zero = []
zeros (suc n) = record { added = 0; removed = 0 } ∷ zeros n

abbrev pub bump : Bool → Component → Component
bump true c = record c { added = c.added + 1 }
bump false c = record c { removed = c.removed + 1 }

-- `vector[index] += sign`.
unfoldable pub add_at : ℕ → Bool → List Component → List Component
add_at i positive [] = []
add_at zero positive (c ∷ v) = bump positive c ∷ v
add_at (suc i) positive (c ∷ v) = c ∷ add_at i positive v

-- `int.from_bytes(bytes, "big")`.
abbrev pub from_bytes : ℕ → List ℕ → ℕ
from_bytes n [] = n
from_bytes n (b ∷ bs) = from_bytes (n * 256 + b) bs

-- `digest[4] % 2 == 0`.
abbrev pub is_even_at : ℕ → List ℕ → Bool
is_even_at i [] = false
is_even_at zero (b ∷ bs) = b % 2 == 0
is_even_at (suc i) (b ∷ bs) = is_even_at i bs

-- `lower` is `str.lower`, `digest` is the 32 bytes of SHA-256, `is_word` is `\w`.
module _ (lower : String → String) (digest : String → List ℕ) (is_word : CharClass) where
  abbrev token_char : CharClass
  token_char = λ c. is_word c || c == b'.' || c == b'-'

  abbrev drop_text : ℕ → String → String
  drop_text zero s = s
  drop_text (suc n) String.[] = ""
  drop_text (suc n) (String.◌∷◌ c s) = drop_text n s

  -- `text[start:end]`.
  abbrev slice : String → ℕ × ℕ → String
  slice s (start, end) = drop_text start (prefix end s)

  -- `re.findall(r"[\w.-]+", text.lower())`.
  unfoldable pub tokens : String → List String
  tokens s = let t = lower s in map (slice t) (find_from is_word (some_of token_char) 0 none 0 t)

  module _ (dimensions : ℕ) where
    unfoldable pub add_token : String → List Component → List Component
    add_token token v =
        let d = digest token in add_at (from_bytes 0 (take 4 d) % dimensions) (is_even_at 4 d) v

    unfoldable pub add_tokens : List String → List Component → List Component
    add_tokens [] v = v
    add_tokens (token ∷ rest) v = add_tokens rest (add_token token v)

    -- `_embed_one`, up to the norm.
    unfoldable pub embed_one : String → List Component
    embed_one s = add_tokens (tokens s) (zeros dimensions)
