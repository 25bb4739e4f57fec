-- ===== src/Persistence/Knowledge.antt =====
-- src/eset_incident_ai/infrastructure/persistence/vector_repository.py: the tables
-- knowledge_documents and knowledge_chunks, and `index_document`. An embedding is a value of any type
-- `V`: the column keeps its JSON. The rows stand in the order in which they were inserted.
pub mod Chunks
pub mod Documents
pub mod Indexing
use eset_incident_ai.Prelude.{
  ℕ, String, Bool, true, false, not, ◌&&◌, ◌||◌, Option, none, some, List, [], ◌∷◌, ◌++◌, map, any,
  ltb, ◌==◌, str_eq, str_len, concat, length, if◌then◌else◌,
}
use eset_incident_ai.World.{Error, other, value_error}
use eset_incident_ai.Exec.{Outcome, ok, err}
use eset_incident_ai.Rag.Indexer.{KnowledgeDocument, ChunkRecord}

pub record StoredDocument : Type 0 where
  pub id : String
  pub source_type : String
  pub source_id : String
  pub title : String
  pub content : String
  pub metadata : List (String × String)
  pub content_hash : String

pub record StoredChunk (V : Type 0) : Type 0 where
  pub id : String
  pub document_id : String
  pub chunk_index : ℕ
  pub content : String
  pub metadata : List (String × String)
  pub embedding : V

pub record Knowledge (V : Type 0) : Type 0 where
  pub documents : List StoredDocument
  pub chunks : List (StoredChunk V)

-- `uuid5 name` is `uuid.uuid5(uuid.NAMESPACE_URL, name)`, `decimal` is `str` of an integer.
pub record Hashes : Type 0 where
  pub sha256 : String → String
  pub uuid5 : String → String
  pub decimal : ℕ → String

abbrev pub mismatch : Error
mismatch = record {
  class = value_error;
  message = "chunks and embeddings must have the same length";
}

abbrev pub too_long : Error
too_long = record { class = other "StringDataRightTruncation"; message = "value too long" }

abbrev pub taken : Error
taken = record { class = other "UniqueViolation"; message = "duplicate key value" }

-- The columns of the constraint `UNIQUE (source_type, source_id, content_hash)`.
abbrev pub same_document : StoredDocument → StoredDocument → Bool
same_document new d =
    str_eq d.source_type new.source_type
    && str_eq d.source_id new.source_id
    && str_eq d.content_hash new.content_hash

unfoldable pub find_same : StoredDocument → List StoredDocument → Option StoredDocument
find_same new [] = none
find_same new (d ∷ ds) = let rest = find_same new ds in if same_document new d then some d else rest

-- `DO UPDATE SET title = …, content = …, metadata = …`.
abbrev pub overwrite : StoredDocument → StoredDocument → StoredDocument
overwrite new d = record d { title = new.title; content = new.content; metadata = new.metadata }

unfoldable pub update_same : StoredDocument → List StoredDocument → List StoredDocument
update_same new [] = []
update_same new (d ∷ ds) = (if same_document new d then overwrite new d else d) ∷ update_same new ds

-- `source_type VARCHAR(50)`, `source_id VARCHAR(128)`, `content_hash VARCHAR(64)`.
abbrev pub fits : StoredDocument → Bool
fits d =
    not (ltb 50 (str_len d.source_type))
    && not (ltb 128 (str_len d.source_id))
    && not (ltb 64 (str_len d.content_hash))

abbrev pub insert_document :
    StoredDocument → List StoredDocument → Outcome (String × List StoredDocument)
insert_document new ds =
    if any (λ d. str_eq d.id new.id) ds then err taken else ok (new.id, ds ++ new ∷ [])

-- The first statement: `INSERT … ON CONFLICT … DO UPDATE … RETURNING id`.
unfoldable pub store_document :
    StoredDocument → List StoredDocument → Outcome (String × List StoredDocument)
store_document new ds =
    if fits new
    then elim (find_same new ds) [
      | none ↦ insert_document new ds
      | some d ↦ ok (d.id, update_same new ds)
    ]
    else err too_long

module _ {V : Type 0} where
  -- `DELETE FROM knowledge_chunks WHERE document_id = %s`.
  unfoldable pub clear_chunks : String → List (StoredChunk V) → List (StoredChunk V)
  clear_chunks document_id [] = []
  clear_chunks document_id (c ∷ cs) =
      let rest = clear_chunks document_id cs in
      if str_eq c.document_id document_id then rest else c ∷ rest

  -- The primary key, and `UNIQUE (document_id, chunk_index)`.
  abbrev pub clashes : StoredChunk V → StoredChunk V → Bool
  clashes new c =
      str_eq c.id new.id
      || (str_eq c.document_id new.document_id && c.chunk_index == new.chunk_index)

  unfoldable pub insert_chunk :
      StoredChunk V → List (StoredChunk V) → Outcome (List (StoredChunk V))
  insert_chunk new cs = if any (clashes new) cs then err taken else ok (cs ++ new ∷ [])

module _ (h : Hashes) where
  abbrev pub document_row : KnowledgeDocument → StoredDocument
  document_row d =
      let content_hash = h.sha256 d.content in
      record {
        id =
            h.uuid5
              (concat d.source_type (concat ":" (concat d.source_id (concat ":" content_hash))));
        source_type = d.source_type;
        source_id = d.source_id;
        title = d.title;
        content = d.content;
        metadata = d.metadata;
        content_hash = content_hash;
      }

  abbrev pub chunk_id : String → ℕ → String
  chunk_id document_id index = h.uuid5 (concat document_id (concat ":" (h.decimal index)))

  module _ {V : Type 0} where
    abbrev pub chunk_row : String → ChunkRecord → V → StoredChunk V
    chunk_row document_id c embedding = record {
      id = chunk_id document_id c.chunk_index;
      document_id = document_id;
      chunk_index = c.chunk_index;
      content = c.content;
      metadata = c.metadata;
      embedding = embedding;
    }

    -- `for chunk, embedding in zip(chunks, embeddings, strict=True)`.
    unfoldable pub insert_chunks :
        String → List ChunkRecord → List V → List (StoredChunk V) → Outcome (List (StoredChunk V))
    insert_chunks document_id [] [] rows = ok rows
    insert_chunks document_id [] (e ∷ es) rows = err mismatch
    insert_chunks document_id (c ∷ cs) [] rows = err mismatch
    insert_chunks document_id (c ∷ cs) (e ∷ es) rows =
        elim (insert_chunk (chunk_row document_id c e) rows) [
          | ok rows' ↦ insert_chunks document_id cs es rows'
          | err x ↦ err x
        ]

    -- The statements of the transaction after the first.
    unfoldable pub replace_chunks :
        List ChunkRecord
        → List V
        → Knowledge V
        → Outcome (String × List StoredDocument)
        → Outcome (Knowledge V)
    replace_chunks cs es k (err x) = err x
    replace_chunks cs es k (ok (stored_document_id, documents)) =
        elim (insert_chunks stored_document_id cs es (clear_chunks stored_document_id k.chunks)) [
          | ok chunks ↦ ok (record { documents = documents; chunks = chunks })
          | err x ↦ err x
        ]

    -- The connection commits at the end of its block, and rolls back where the block raises.
    abbrev pub commit : Knowledge V → Outcome (Knowledge V) → Outcome (Unit {0}) × Knowledge V
    commit k (ok k') = (ok tt, k')
    commit k (err x) = (err x, k)

    unfoldable pub index_document :
        KnowledgeDocument
        → List ChunkRecord
        → List V
        → Knowledge V
        → Outcome (Unit {0}) × Knowledge V
    index_document d cs es k =
        if length cs == length es
        then commit k (replace_chunks cs es k (store_document (document_row d) k.documents))
        else (err mismatch, k)
