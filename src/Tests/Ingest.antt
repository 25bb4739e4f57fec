-- ===== src/Tests/Ingest.antt =====
-- A knowledge file that is ingested twice into tables that hold another document.
use eset_incident_ai.Prelude.{
  ℕ, zero, suc, ◌≤◌, ◌≡◌, ◌≢◌, refl, ap, String, true, false, some, List, [], ◌∷◌, arith, concat,
  str_len, eq_iff, str_eq,
}
use eset_incident_ai.Exec.{ok}
use eset_incident_ai.Rag.Chunker.{TextChunker}
use eset_incident_ai.Rag.Indexer.{KnowledgeDocument, ChunkRecord}
use eset_incident_ai.Rag.FileLoader.{KnowledgeFile, first_heading, document_from_file}
use eset_incident_ai.Persistence.Knowledge.{
  StoredDocument, Knowledge, Hashes, document_row, chunk_id, fits, index_document, find_same,
}
use eset_incident_ai.Persistence.Knowledge.Documents.{IdIsFree}
use eset_incident_ai.Persistence.Knowledge.Indexing.{
  NoCollision, Indexed, stored_id, index_document-replaces,
}
use eset_incident_ai.Scripts.Ingest.{document_of}
use eset_incident_ai.Scripts.Ingest.Covers.{Ingested, document_from_file-fits, ingest_file-Ingested}

-- A number as that many strokes.
abbrev strokes : ℕ → String
strokes zero = ""
strokes (suc n) = concat "1" (strokes n)

-- Every text has the same digest, and an id is the name it is made from.
abbrev hashes : Hashes
hashes = record { sha256 = λ s. "d0"; uuid5 = λ s. s; decimal = strokes }

digest-short : (s : String) → str_len (hashes.sha256 s) ≤ 64
digest-short s = omega arith

abbrev runbook : KnowledgeFile
runbook = record {
  relative_path = "runbooks/malware.md";
  stem = "malware";
  content = "# Malware\nIsolate it";
}

heading : first_heading "\n## Malware response\r\n# Other" ≡ some "Malware response"
unfolding first_heading
heading = refl

abbrev chunker : TextChunker
chunker = record { max_chars = 8; overlap_chars = 2 }

strokes-inj : (a b : ℕ) → strokes a ≡ strokes b → a ≡ b
strokes-inj zero zero e = refl
strokes-inj zero (suc b) e = cc
strokes-inj (suc a) zero e = cc
strokes-inj (suc a) (suc b) e = ap suc (strokes-inj a b (cc))

concat-left : (p s t : String) → concat p s ≡ concat p t → s ≡ t
concat-left String.[] s t e = e
concat-left (String.◌∷◌ c p) s t e = concat-left p s t (cc)

no_chunks : (j : String) → NoCollision hashes {V = ℕ} [] j
no_chunks j = record {
  apart = λ a b e. strokes-inj a b (concat-left ":" _ _ (concat-left j _ _ e));
  foreign = tt;
}

abbrev empty : Knowledge ℕ
empty = record { documents = []; chunks = [] }

nothing_stored : (d : StoredDocument) → IdIsFree d empty.documents
nothing_stored d e = refl

ingest_file-Ingested_example : Ingested hashes (λ s. s) str_len chunker runbook empty
ingest_file-Ingested_example =
    ingest_file-Ingested hashes (λ s. s) str_len chunker runbook empty digest-short (omega arith)
      (nothing_stored (document_row hashes (document_of hashes (λ s. s) str_len runbook)))
      (no_chunks (stored_id hashes (document_of hashes (λ s. s) str_len runbook) empty))

document_from_file-fits_example :
    fits (document_row hashes (document_from_file hashes.sha256 (λ s. s) runbook)) ≡ true
document_from_file-fits_example = document_from_file-fits hashes (λ s. s) digest-short runbook

-- The document of a file with two chunks, and tables in which another document has one.
abbrev document : KnowledgeDocument
document = record {
  source_type = "knowledge";
  source_id = "h1";
  title = "Handbook";
  content = "abcdef";
  metadata = [];
}

abbrev pieces : List ChunkRecord
pieces =
    record { source_id = "h1"; chunk_index = 0; content = "abcd"; metadata = [] }
    ∷ record { source_id = "h1"; chunk_index = 1; content = "cdef"; metadata = [] }
    ∷ []

abbrev other_tables : Knowledge ℕ
other_tables = record {
  documents =
      record {
        id = "b";
        source_type = "incident";
        source_id = "i1";
        title = "Alert";
        content = "x";
        metadata = [];
        content_hash = "d1";
      }
      ∷ [];
  chunks =
      record {
        id = "b:";
        document_id = "b";
        chunk_index = 0;
        content = "x";
        metadata = [];
        embedding = 7;
      }
      ∷ [];
}

str_eq-ne : (s t : String) → s ≢ t → str_eq s t ≡ false
str_eq-ne s t n = ground (arith, eq_iff s t, n)

other-NoCollision : NoCollision hashes other_tables.chunks "knowledge:h1:d0"
other-NoCollision = record {
  apart = λ a b e. strokes-inj a b (concat-left "knowledge:h1:d0:" _ _ e);
  foreign = (λ a e. str_eq-ne "b:" (chunk_id hashes "knowledge:h1:d0" a) (λ q. cc), tt);
}

index_document-replaces_example :
    (k' : Knowledge ℕ) × (index_document hashes document pieces (3 ∷ 4 ∷ []) other_tables
      ≡ (ok tt, k'))
    × Indexed hashes document pieces (3 ∷ 4 ∷ []) other_tables k' "knowledge:h1:d0"
    × (index_document hashes document pieces (3 ∷ 4 ∷ []) k' ≡ (ok tt, k'))
unfolding find_same
index_document-replaces_example =
    index_document-replaces hashes document pieces (3 ∷ 4 ∷ []) other_tables refl (refl, (refl, tt))
      refl (λ e. refl) other-NoCollision
