-- ===== src/Rag/Chunker.antt =====
-- src/eset_incident_ai/rag/chunker.py: a text as overlapping pieces.
pub mod Cover
use eset_incident_ai.Prelude.{
  ℕ, zero, suc, ◌+◌, ◌-◌, ◌==◌, min, Bool, true, false, Option, none, some, List, [], ◌∷◌, leb, ltb,
  take, drop, length, if◌then◌else◌,
}
use eset_incident_ai.World.{Error, value_error}
use eset_incident_ai.Exec.{Outcome, ok, err}

pub record TextChunker : Type 0 where
  pub max_chars : ℕ
  pub overlap_chars : ℕ

-- `__init__`.
unfoldable pub text_chunker : ℕ → ℕ → Outcome TextChunker
text_chunker max_chars overlap_chars =
    if leb max_chars overlap_chars
    then err
        (record { class = value_error; message = "overlap_chars must be smaller than max_chars" })
    else ok (record { max_chars = max_chars; overlap_chars = overlap_chars })

module _ {ℓ} {A : Type ℓ} (c : TextChunker) (text : List A) where
  -- `text[start:end]`.
  abbrev pub slice : ℕ → ℕ → List A
  slice start end = take (end - start) (drop start text)

  -- The loop `while start < len(text)`, with as many rounds as `fuel` allows: `none` is a loop that is
  -- still running. `end - overlap` is never negative, since `end` is at least `max_chars`.
  unfoldable pub chunks_from : ℕ → ℕ → Option (List (List A))
  chunks_from zero start = none
  chunks_from (suc fuel) start =
      let end = min (length text) (start + c.max_chars) in
      let rest = chunks_from fuel (end - c.overlap_chars) in
      if ltb start (length text)
      then (if end == length text
          then some (slice start end ∷ [])
          else elim rest [ none ↦ none | some cs ↦ some (slice start end ∷ cs) ])
      else some []

  unfoldable pub chunk : ℕ → Option (List (List A))
  chunk fuel = elim text [ [] ↦ some [] | x ∷ xs ↦ chunks_from fuel 0 ]
