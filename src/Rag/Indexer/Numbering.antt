-- ===== src/Rag/Indexer/Numbering.antt =====
-- The records of a document's chunks: their numbers, what they carry, and the text they hold.
use Prim.Native.Char.{Char}
use eset_incident_ai.Prelude.{
  ℕ, suc, ◌<◌, ◌≤◌, ◌≡◌, refl, ap, subst, sym, ◌∙◌, none, some, List, [], ◌∷◌, map, length, All,
  chars, of_chars,
}
use eset_incident_ai.Rag.Chunker.{TextChunker}
use eset_incident_ai.Rag.Chunker.Cover.{joined, chunk-covers}
use eset_incident_ai.Rag.Indexer.{KnowledgeDocument, ChunkRecord, records, build_chunks}

abbrev pub text_of : ChunkRecord → List Char
text_of r = chars r.content

-- Every record has the next number.
abbrev pub Numbered : ℕ → List ChunkRecord → Type 0
Numbered index [] = Unit
Numbered index (r ∷ rs) = (r.chunk_index ≡ index) × Numbered (suc index) rs

-- The record of a chunk of the document.
abbrev pub Carries : TextChunker → KnowledgeDocument → ChunkRecord → Type 0
Carries c d r =
    (r.source_id ≡ d.source_id)
    × (r.metadata ≡ d.metadata)
    × (1 ≤ length (text_of r))
    × (length (text_of r) ≤ c.max_chars)

chars-of_chars : (cs : List Char) → chars (of_chars cs) ≡ cs
chars-of_chars [] = refl
chars-of_chars (c ∷ cs) = ap (λ ds. c ∷ ds) (chars-of_chars cs)

records-texts :
    (d : KnowledgeDocument) (index : ℕ) (cs : List (List Char))
    → map text_of (records d index cs) ≡ cs
unfolding records
records-texts d index [] = refl
records-texts d index (c ∷ cs) = rw (chars-of_chars c, records-texts d (suc index) cs) refl

records-Numbered :
    (d : KnowledgeDocument) (index : ℕ) (cs : List (List Char))
    → Numbered index (records d index cs)
unfolding records
records-Numbered d index [] = tt
records-Numbered d index (c ∷ cs) = (refl, records-Numbered d (suc index) cs)

records-Carries :
    (k : TextChunker) (d : KnowledgeDocument) (index : ℕ) (cs : List (List Char))
    → All (λ piece. (1 ≤ length piece) × (length piece ≤ k.max_chars)) cs
    → All (Carries k d) (records d index cs)
unfolding records
records-Carries k d index [] h = tt
records-Carries k d index (c ∷ cs) h = (
  (
    refl,
    refl,
    subst (λ t. 1 ≤ length t) (sym (chars-of_chars c)) h.0.0,
    subst (λ t. length t ≤ k.max_chars) (sym (chars-of_chars c)) h.0.1,
  ),
  records-Carries k d (suc index) cs h.1,
)

-- With an overlap smaller than the chunks, a document is indexed within as many rounds as its content
-- has characters. The records are numbered 0, 1, 2, … in order; each carries the document's id and
-- metadata and between one and `max_chars` characters; and their texts, each after the first without
-- the `overlap_chars` that it shares with the one before, are the content.
pub build_chunks-Numbered :
    (c : TextChunker) (d : KnowledgeDocument)
    → c.overlap_chars < c.max_chars
    → (rs : List ChunkRecord) × (build_chunks c (length (chars d.content)) d ≡ some rs)
      × Numbered 0 rs
      × All (Carries c d) rs
      × (joined c.overlap_chars (map text_of rs) ≡ chars d.content)
unfolding build_chunks
build_chunks-Numbered c d smaller =
    let (cs, run, sized, whole) = chunk-covers c (chars d.content) smaller in
    (
      records d 0 cs,
      ap (λ o. elim o [ none ↦ none | some ds ↦ some (records d 0 ds) ]) run,
      records-Numbered d 0 cs,
      records-Carries c d 0 cs sized,
      ap (joined c.overlap_chars) (records-texts d 0 cs) ∙ whole,
    )
