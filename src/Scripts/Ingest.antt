-- ===== src/Scripts/Ingest.antt =====
-- scripts/ingest_knowledge.py: the files of a folder are split, embedded and indexed. The listing of
-- the folder (`iter_files`) is a parameter. `none` is a chunker whose loop is still running.
pub mod Covers
use eset_incident_ai.Prelude.{
  ℕ, suc, String, Bool, true, false, Option, none, some, List, [], ◌∷◌, map, length, chars,
}
use eset_incident_ai.Exec.{Outcome, ok, err}
use eset_incident_ai.Rag.Chunker.{TextChunker, text_chunker}
use eset_incident_ai.Rag.Indexer.{KnowledgeDocument, ChunkRecord, build_chunks}
use eset_incident_ai.Rag.FileLoader.{KnowledgeFile, document_from_file}
use eset_incident_ai.Persistence.Knowledge.{Knowledge, Hashes, index_document}

module _ (h : Hashes) (title_case : String → String) {V : Type 0} (embed : String → V) where
  abbrev pub document_of : KnowledgeFile → KnowledgeDocument
  document_of f = document_from_file h.sha256 title_case f

  -- Whether the file is counted.
  abbrev pub counted : Outcome (Unit {0}) × Knowledge V → Outcome Bool × Knowledge V
  counted (ok u, k) = (ok true, k)
  counted (err e, k) = (err e, k)

  -- The body of the loop after `build_chunks`: `if not chunks: continue`.
  abbrev pub index_chunks :
      KnowledgeDocument → List ChunkRecord → Knowledge V → Outcome Bool × Knowledge V
  index_chunks d [] k = (ok false, k)
  index_chunks d (c ∷ cs) k =
      counted (index_document h d (c ∷ cs) (map (λ r. embed r.content) (c ∷ cs)) k)

  unfoldable pub ingest_file :
      TextChunker → KnowledgeFile → Knowledge V → Option (Outcome Bool × Knowledge V)
  ingest_file chunker f k =
      let d = document_of f in
      elim (build_chunks chunker (length (chars d.content)) d) [
        | none ↦ none
        | some cs ↦ some (index_chunks d cs k)
      ]

  abbrev pub next_count : Bool → ℕ → ℕ
  next_count true n = suc n
  next_count false n = n

  abbrev pub then_ingest :
      (ℕ → Knowledge V → Option (Outcome ℕ × Knowledge V))
      → ℕ
      → Option (Outcome Bool × Knowledge V)
      → Option (Outcome ℕ × Knowledge V)
  then_ingest further n none = none
  then_ingest further n (some (err e, k)) = some (err e, k)
  then_ingest further n (some (ok b, k)) = further (next_count b n) k

  unfoldable pub ingest_files :
      TextChunker → List KnowledgeFile → ℕ → Knowledge V → Option (Outcome ℕ × Knowledge V)
  ingest_files chunker [] n k = some (ok n, k)
  ingest_files chunker (f ∷ fs) n k =
      then_ingest (ingest_files chunker fs) n (ingest_file chunker f k)

  abbrev pub with_chunker :
      Outcome TextChunker → List KnowledgeFile → Knowledge V → Option (Outcome ℕ × Knowledge V)
  with_chunker (ok chunker) fs k = ingest_files chunker fs 0 k
  with_chunker (err e) fs k = some (err e, k)

  -- `ingest`.
  unfoldable pub ingest :
      ℕ → ℕ → List KnowledgeFile → Knowledge V → Option (Outcome ℕ × Knowledge V)
  ingest max_chars overlap_chars fs k = with_chunker (text_chunker max_chars overlap_chars) fs k
