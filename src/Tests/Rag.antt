-- ===== src/Tests/Rag.antt =====
-- A text of ten characters in pieces, a document as records, and a search.
use Prim.Native.Char.{code}
use eset_incident_ai.Prelude.{
  ℕ, ◌+◌, ◌-◌, ◌*◌, min, ◌≡◌, ◌≤◌, refl, String, Option, none, some, List, [], ◌∷◌, ◌++◌, map, All,
  length, chars, arith,
}
use eset_incident_ai.Sorting.{falling, insert, sorted}
use eset_incident_ai.Sorting.Order.{InOrder, has_key, filter}
use eset_incident_ai.Rag.Chunker.{TextChunker, chunks_from, chunk}
use eset_incident_ai.Rag.Chunker.Cover.{joined, chunk-covers}
use eset_incident_ai.Rag.Indexer.{KnowledgeDocument, ChunkRecord, build_chunks}
use eset_incident_ai.Rag.Indexer.Numbering.{text_of, Numbered, Carries, build_chunks-Numbered}
use eset_incident_ai.Rag.Reranker.{relevance}
use eset_incident_ai.Persistence.Vectors.{ChunkRow, score_of, to_evidence, scored, search}
use eset_incident_ai.Persistence.Vectors.Best.{AtLeast, EvidenceFits, search-Best}

abbrev chunker : TextChunker
chunker = record { max_chars = 4; overlap_chars = 1 }

abbrev digits : List ℕ
digits = 0 ∷ 1 ∷ 2 ∷ 3 ∷ 4 ∷ 5 ∷ 6 ∷ 7 ∷ 8 ∷ 9 ∷ []

three_pieces :
    chunk chunker digits 3
    ≡ some ((0 ∷ 1 ∷ 2 ∷ 3 ∷ []) ∷ (3 ∷ 4 ∷ 5 ∷ 6 ∷ []) ∷ (6 ∷ 7 ∷ 8 ∷ 9 ∷ []) ∷ [])
unfolding chunk chunks_from
three_pieces = refl

chunk-covers_example :
    (cs : List (List ℕ)) × (chunk chunker digits 10 ≡ some cs)
    × All (λ piece. (1 ≤ length piece) × (length piece ≤ 4)) cs
    × (joined 1 cs ≡ digits)
chunk-covers_example = chunk-covers chunker digits (omega arith)

abbrev handbook : KnowledgeDocument
handbook = record {
  source_type = "knowledge";
  source_id = "h1";
  title = "Handbook";
  content = "abcdefg";
  metadata = ("path", "h.md") ∷ [];
}

build_chunks-Numbered_example :
    (rs : List ChunkRecord) × (build_chunks chunker 7 handbook ≡ some rs)
    × Numbered 0 rs
    × All (Carries chunker handbook) rs
    × (joined 1 (map text_of rs) ≡ chars "abcdefg")
build_chunks-Numbered_example = build_chunks-Numbered chunker handbook (omega arith)

-- An embedding of one dimension: the code of the first character, or 0.
abbrev embed : String → ℕ
embed String.[] = 0
embed (String.◌∷◌ c s) = code c

abbrev similarity : ℕ → ℕ → ℕ
similarity a b = 20000 - ((a - b) + (b - a)) * 100

abbrev row : String → Option ℕ → ChunkRow ℕ
row id embedding = record {
  chunk_id = id;
  source_type = "knowledge";
  source_id = "h1";
  title = "Handbook";
  content = "text";
  metadata = none;
  embedding = embedding;
}

abbrev table : List (ChunkRow ℕ)
table = row "far" (some 110) ∷ row "null" none ∷ row "near" (some 98) ∷ []

nearest : map (λ e. e.evidence_id) (search embed similarity table "a" 1) ≡ "near" ∷ []
unfolding search scored to_evidence sorted insert
nearest = refl

search-Best_example :
    (best rest : List (ℕ × ChunkRow ℕ)) × (search embed similarity table "a" 1
      ≡ map to_evidence best)
    × ((score : ℕ)
        → filter (has_key falling score_of score) (best ++ rest)
          ≡ filter (has_key falling score_of score) (scored embed similarity 97 table))
    × (length best ≡ min 1 (length (scored embed similarity 97 table)))
    × All (AtLeast rest) best
    × InOrder falling relevance (search embed similarity table "a" 1)
    × All EvidenceFits (search embed similarity table "a" 1)
search-Best_example = search-Best embed similarity table "a" 1
