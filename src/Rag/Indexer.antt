-- ===== src/Rag/Indexer.antt =====
-- src/eset_incident_ai/rag/document_factory.py and indexer.py: an incident as a document, and a
-- document as the numbered records of its chunks.
pub mod Numbering
use Prim.Native.Char.{Char}
use eset_incident_ai.Prelude.{
  ℕ, suc, String, Option, none, some, List, [], ◌∷◌, concat, is_empty, chars, of_chars, join,
  if◌then◌else◌,
}
use eset_incident_ai.Domain.Severity.{Severity, value}
use eset_incident_ai.Domain.Incident.{Incident}
use eset_incident_ai.Rag.Chunker.{TextChunker, chunk}

pub record KnowledgeDocument : Type 0 where
  pub source_type : String
  pub source_id : String
  pub title : String
  pub content : String
  pub metadata : List (String × String)

-- `"\n".join(part for part in parts if part)`.
abbrev pub present : List String → List String
present [] = []
present (p ∷ ps) = if is_empty p then present ps else p ∷ present ps

-- `incident.summary or ''`.
abbrev pub summary_or_empty : Option String → String
summary_or_empty none = ""
summary_or_empty (some s) = s

unfoldable pub from_incident : Incident → KnowledgeDocument
from_incident incident = record {
  source_type = "incident";
  source_id = incident.external_id;
  title = incident.title;
  content = join "\n" (
      present (
        concat "Title: " incident.title
        ∷ concat "Severity: " (value incident.severity)
        ∷ concat "Summary: " (summary_or_empty incident.summary)
        ∷ []));
  metadata = ("severity", value incident.severity) ∷ [];
}

pub record ChunkRecord : Type 0 where
  pub source_id : String
  pub chunk_index : ℕ
  pub content : String
  pub metadata : List (String × String)

-- `enumerate` from `index` on.
unfoldable pub records : KnowledgeDocument → ℕ → List (List Char) → List ChunkRecord
records document index [] = []
records document index (content ∷ cs) =
    record {
      source_id = document.source_id;
      chunk_index = index;
      content = of_chars content;
      metadata = document.metadata;
    }
    ∷ records document (suc index) cs

-- `none` is a chunker whose loop is still running after `fuel` rounds.
unfoldable pub build_chunks : TextChunker → ℕ → KnowledgeDocument → Option (List ChunkRecord)
build_chunks chunker fuel document = elim (chunk chunker (chars document.content) fuel) [
  | none ↦ none
  | some cs ↦ some (records document 0 cs)
]
