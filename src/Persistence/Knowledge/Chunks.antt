-- ===== src/Persistence/Knowledge/Chunks.antt =====
-- The chunks of one document in the table, and the insertion of all of a document's chunks.
use eset_incident_ai.Prelude.{
  ℕ, suc, String, ◌≡◌, ◌≢◌, ◌≤◌, refl, sym, ap, subst, ◌∙◌, Bool, false, ◌||◌, List, [], ◌∷◌, ◌++◌,
  any, length, append_nil, arith, str_eq, eq_iff, eq_refl, if◌then◌else◌,
}
use mathlib.Core.List.{append_assoc}
use eset_incident_ai.Exec.{ok}
use eset_incident_ai.Rag.Indexer.{ChunkRecord}
use eset_incident_ai.Rag.Indexer.Numbering.{Numbered}
use eset_incident_ai.Persistence.Knowledge.{
  StoredChunk, Hashes, clear_chunks, clashes, insert_chunk, chunk_id, chunk_row, insert_chunks,
}

module _ {V : Type 0} where
  -- The rows of one document, in the order of their insertion.
  unfoldable pub chunks_of : String → List (StoredChunk V) → List (StoredChunk V)
  chunks_of document_id [] = []
  chunks_of document_id (c ∷ cs) =
      let rest = chunks_of document_id cs in
      if str_eq c.document_id document_id then c ∷ rest else rest

  pub chunks_of-append :
      (j : String) (xs ys : List (StoredChunk V))
      → chunks_of j (xs ++ ys) ≡ chunks_of j xs ++ chunks_of j ys
  unfolding chunks_of
  chunks_of-append j [] ys = refl
  chunks_of-append j (x ∷ xs) ys = ground (arith, chunks_of-append j xs ys)

  pub chunks_of-clear_self :
      (j : String) (xs : List (StoredChunk V)) → chunks_of j (clear_chunks j xs) ≡ []
  unfolding chunks_of clear_chunks
  chunks_of-clear_self j [] = refl
  chunks_of-clear_self j (x ∷ xs) = ground (arith, chunks_of-clear_self j xs)

  pub chunks_of-clear_other :
      (i j : String) (xs : List (StoredChunk V))
      → i ≢ j
      → chunks_of j (clear_chunks i xs) ≡ chunks_of j xs
  unfolding chunks_of clear_chunks
  chunks_of-clear_other i j [] h = refl
  chunks_of-clear_other i j (x ∷ xs) h =
      ground
        (arith, h, eq_iff x.document_id i, eq_iff x.document_id j, chunks_of-clear_other i j xs h)

  pub clear_chunks-append :
      (j : String) (xs ys : List (StoredChunk V))
      → clear_chunks j (xs ++ ys) ≡ clear_chunks j xs ++ clear_chunks j ys
  unfolding clear_chunks
  clear_chunks-append j [] ys = refl
  clear_chunks-append j (x ∷ xs) ys = ground (arith, clear_chunks-append j xs ys)

  pub clear_chunks_again :
      (j : String) (xs : List (StoredChunk V))
      → clear_chunks j (clear_chunks j xs) ≡ clear_chunks j xs
  unfolding clear_chunks
  clear_chunks_again j [] = refl
  clear_chunks_again j (x ∷ xs) = ground (arith, clear_chunks_again j xs)

  pub any-append :
      (p : StoredChunk V → Bool) (xs ys : List (StoredChunk V))
      → any p (xs ++ ys) ≡ (any p xs || any p ys)
  any-append p [] ys = refl
  any-append p (x ∷ xs) ys = ground (arith, any-append p xs ys)

  insert_chunk-free :
      (new : StoredChunk V) (rows : List (StoredChunk V))
      → any (clashes new) rows ≡ false
      → insert_chunk new rows ≡ ok (rows ++ new ∷ [])
  unfolding insert_chunk
  insert_chunk-free new rows e = rw e

module _ (h : Hashes) {V : Type 0} (j : String) where
  -- The rows of a document's chunks and their embeddings.
  abbrev pub chunk_rows : List ChunkRecord → List V → List (StoredChunk V)
  chunk_rows [] es = []
  chunk_rows (c ∷ cs) [] = []
  chunk_rows (c ∷ cs) (e ∷ es) = chunk_row h j c e ∷ chunk_rows cs es

  pub chunks_of-chunk_rows_self :
      (cs : List ChunkRecord) (es : List V) → chunks_of j (chunk_rows cs es) ≡ chunk_rows cs es
  unfolding chunks_of
  chunks_of-chunk_rows_self [] es = refl
  chunks_of-chunk_rows_self (c ∷ cs) [] = refl
  chunks_of-chunk_rows_self (c ∷ cs) (e ∷ es) = rw (eq_refl j, chunks_of-chunk_rows_self cs es)

  pub chunks_of-chunk_rows_other :
      (i : String) (cs : List ChunkRecord) (es : List V)
      → j ≢ i
      → chunks_of i (chunk_rows cs es) ≡ []
  unfolding chunks_of
  chunks_of-chunk_rows_other i [] es n = refl
  chunks_of-chunk_rows_other i (c ∷ cs) [] n = refl
  chunks_of-chunk_rows_other i (c ∷ cs) (e ∷ es) n =
      ground (arith, n, eq_iff j i, chunks_of-chunk_rows_other i cs es n)

  pub clear_chunks-chunk_rows :
      (cs : List ChunkRecord) (es : List V) → clear_chunks j (chunk_rows cs es) ≡ []
  unfolding clear_chunks
  clear_chunks-chunk_rows [] es = refl
  clear_chunks-chunk_rows (c ∷ cs) [] = refl
  clear_chunks-chunk_rows (c ∷ cs) (e ∷ es) = rw (eq_refl j, clear_chunks-chunk_rows cs es)

  -- No row of the table has the key of a row with one of the indices from `k` on.
  abbrev pub Free : ℕ → List (StoredChunk V) → Type 0
  Free k rows =
      (c : ChunkRecord) (e : V) → k ≤ c.chunk_index → any (clashes (chunk_row h j c e)) rows ≡ false

  module _ (apart : (a b : ℕ) → chunk_id h j a ≡ chunk_id h j b → a ≡ b) where
    Free-next :
        (c : ChunkRecord) (e : V) (rows : List (StoredChunk V))
        → Free c.chunk_index rows
        → Free (suc c.chunk_index) (rows ++ chunk_row h j c e ∷ [])
    Free-next c e rows free c' e' le =
        any-append (clashes (chunk_row h j c' e')) rows (chunk_row h j c e ∷ [])
        ∙ ground (
          arith,
          free c' e' (omega (arith, le)),
          le,
          eq_iff (chunk_id h j c.chunk_index) (chunk_id h j c'.chunk_index),
          apart c.chunk_index c'.chunk_index,
        )

    -- All chunks are inserted, in their order.
    pub insert_chunks_lem :
        (k : ℕ) (cs : List ChunkRecord) (es : List V) (rows : List (StoredChunk V))
        → length cs ≡ length es
        → Numbered k cs
        → Free k rows
        → insert_chunks h j cs es rows ≡ ok (rows ++ chunk_rows cs es)
    unfolding insert_chunks
    insert_chunks_lem k [] [] rows l n free = ap ok (sym (append_nil rows))
    insert_chunks_lem k [] (e ∷ es) rows l n free = absurd (omega (arith, l))
    insert_chunks_lem k (c ∷ cs) [] rows l n free = absurd (omega (arith, l))
    insert_chunks_lem k (c ∷ cs) (e ∷ es) rows l n free =
        rw (insert_chunk-free _ _ (free c e (omega (arith, n.0))), insert_chunks)
          (insert_chunks_lem (suc k) cs es (rows ++ chunk_row h j c e ∷ []) (omega (arith, l)) n.1 (
              subst (λ m. Free (suc m) (rows ++ chunk_row h j c e ∷ [])) n.0
                (Free-next c e rows (subst (λ m. Free m rows) (sym n.0) free)))
            ∙ ap ok (append_assoc rows (chunk_row h j c e ∷ []) (chunk_rows cs es)))
