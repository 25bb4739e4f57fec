-- ===== src/Persistence/Knowledge/Indexing.antt =====
-- What `index_document` leaves in the two tables, on every branch.
use eset_incident_ai.Prelude.{
  ℕ, String, ◌≡◌, ◌≢◌, refl, sym, ap, subst, ◌∙◌, true, false, inl, inr, some, List, [], ◌∷◌, ◌++◌,
  length, All, append_nil, arith, str_eq, Bool-cases, ◌==◌,
}
use eset_incident_ai.Exec.{ok}
use eset_incident_ai.Rag.Indexer.{KnowledgeDocument, ChunkRecord}
use eset_incident_ai.Rag.Indexer.Numbering.{Numbered}
use eset_incident_ai.Persistence.Knowledge.{
  StoredDocument, StoredChunk, Knowledge, Hashes, find_same, fits, store_document, clear_chunks,
  document_row, chunk_id, replace_chunks, index_document,
}
use eset_incident_ai.Persistence.Knowledge.Chunks.{
  chunks_of, chunk_rows, chunks_of-append, chunks_of-clear_self, chunks_of-clear_other,
  clear_chunks-append, clear_chunks_again, chunks_of-chunk_rows_self, chunks_of-chunk_rows_other,
  clear_chunks-chunk_rows, Free, insert_chunks_lem,
}
use eset_incident_ai.Persistence.Knowledge.Documents.{
  Described, IdIsFree, id_of, store_document-Stored,
}

module _ (h : Hashes) {V : Type 0} where
  -- The ids that SHA-1 gives to the chunks of one document differ, and no chunk of another document
  -- has one of them.
  pub record NoCollision (rows : List (StoredChunk V)) (j : String) : Type 0 where
    pub apart : (a b : ℕ) → chunk_id h j a ≡ chunk_id h j b → a ≡ b
    pub foreign :
        All
          (λ r. (a : ℕ) → str_eq r.document_id j ≡ false → str_eq r.id (chunk_id h j a) ≡ false)
          rows

  cleared-Free :
      (j : String) (rows : List (StoredChunk V))
      → All
          (λ r. (a : ℕ) → str_eq r.document_id j ≡ false → str_eq r.id (chunk_id h j a) ≡ false)
          rows
      → Free h j 0 (clear_chunks j rows)
  unfolding clear_chunks
  cleared-Free j [] f c e le = refl
  cleared-Free j (r ∷ rows) f c e le = elim (Bool-cases (str_eq r.document_id j)) [
    | inl s ↦ rw s (cleared-Free j rows f.1 c e le)
    | inr s ↦ rw (s, f.0 c.chunk_index s, s) (cleared-Free j rows f.1 c e le)
  ]

  -- The tables afterwards.
  pub record Indexed (d : KnowledgeDocument) (cs : List ChunkRecord) (es : List V)
      (k k' : Knowledge V) (stored_id : String) : Type 0 where
    pub described :
        (row : StoredDocument) × (find_same (document_row h d) k'.documents ≡ some row)
        × Described (document_row h d) row stored_id
    pub replaced : chunks_of stored_id k'.chunks ≡ chunk_rows h stored_id cs es
    pub kept : (i : String) → stored_id ≢ i → chunks_of i k'.chunks ≡ chunks_of i k.chunks

  module _ (d : KnowledgeDocument) (cs : List ChunkRecord) (es : List V) (j : String)
      (lengths : length cs ≡ length es) (numbered : Numbered 0 cs) where
    same_length : length cs == length es ≡ true
    same_length = ground (arith, lengths)

    -- A run whose first statement returns `j`, and whose chunks have room.
    run_from :
        (k : Knowledge V) (documents : List StoredDocument)
        → store_document (document_row h d) k.documents ≡ ok (j, documents)
        → ((a b : ℕ) → chunk_id h j a ≡ chunk_id h j b → a ≡ b)
        → Free h j 0 (clear_chunks j k.chunks)
        → index_document h d cs es k ≡ (
          ok tt,
          record {
            documents = documents;
            chunks = clear_chunks j k.chunks ++ chunk_rows h j cs es;
          },
        )
    unfolding index_document replace_chunks
    run_from k documents stored apart free =
        rw
          (
            same_length,
            stored,
            replace_chunks,
            insert_chunks_lem h j apart 0 cs es (clear_chunks j k.chunks) lengths numbered free,
          )
          refl

    cleared_again :
        (rows : List (StoredChunk V))
        → clear_chunks j (clear_chunks j rows ++ chunk_rows h j cs es) ≡ clear_chunks j rows
    cleared_again rows =
        clear_chunks-append j (clear_chunks j rows) (chunk_rows h j cs es)
        ∙ rw (clear_chunks_again j rows, clear_chunks-chunk_rows h j cs es)
            (append_nil (clear_chunks j rows))

    chunks_of_other :
        (rows : List (StoredChunk V)) (i : String)
        → j ≢ i
        → chunks_of i (clear_chunks j rows ++ chunk_rows h j cs es) ≡ chunks_of i rows
    chunks_of_other rows i n =
        chunks_of-append i (clear_chunks j rows) (chunk_rows h j cs es)
        ∙ rw (chunks_of-clear_other j i rows n, chunks_of-chunk_rows_other h j i cs es n)
            (append_nil (chunks_of i rows))

    chunks_of_self :
        (rows : List (StoredChunk V))
        → chunks_of j (clear_chunks j rows ++ chunk_rows h j cs es) ≡ chunk_rows h j cs es
    chunks_of_self rows =
        chunks_of-append j (clear_chunks j rows) (chunk_rows h j cs es)
        ∙ rw (chunks_of-clear_self j rows) (chunks_of-chunk_rows_self h j cs es)

  -- The id under which a document stands, or would stand.
  abbrev pub stored_id : KnowledgeDocument → Knowledge V → String
  stored_id d k = id_of (document_row h d) (find_same (document_row h d) k.documents)

  -- Of a document whose columns fit, with an embedding for each chunk and its chunks numbered from 0,
  -- where neither its id nor those of its chunks are in use for others: the indexing succeeds. The
  -- document then has one row with its title, content and metadata; the chunks of that row are its
  -- chunks with their embeddings, in order, and none from before; the chunks of all other rows are as
  -- they were. Indexing it again succeeds and changes nothing.
  pub index_document-replaces :
      (d : KnowledgeDocument) (cs : List ChunkRecord) (es : List V) (k : Knowledge V)
      → length cs ≡ length es
      → Numbered 0 cs
      → fits (document_row h d) ≡ true
      → IdIsFree (document_row h d) k.documents
      → NoCollision k.chunks (stored_id d k)
      → (k' : Knowledge V) × (index_document h d cs es k ≡ (ok tt, k'))
        × Indexed d cs es k k' (stored_id d k)
        × (index_document h d cs es k' ≡ (ok tt, k'))
  index_document-replaces d cs es k lengths numbered wide free n =
      let (documents, (stored, described, again)) =
        store_document-Stored (document_row h d) k.documents wide free in
      let j = stored_id d k in
      let room = cleared-Free j k.chunks n.foreign in
      let back = cleared_again d cs es j lengths numbered k.chunks in
      (
        record { documents = documents; chunks = clear_chunks j k.chunks ++ chunk_rows h j cs es },
        run_from d cs es j lengths numbered k documents stored n.apart room,
        record {
          described = described;
          replaced = chunks_of_self d cs es j lengths numbered k.chunks;
          kept = chunks_of_other d cs es j lengths numbered k.chunks;
        },
        run_from d cs es j lengths numbered
              (record {
                documents = documents;
                chunks = clear_chunks j k.chunks ++ chunk_rows h j cs es;
              })
              documents again n.apart (subst (Free h j 0) (sym back) room)
            ∙ ap
                (λ rows.
                  (ok tt, record { documents = documents; chunks = rows ++ chunk_rows h j cs es }))
                back,
      )
