-- ===== src/Scripts/Ingest/Covers.antt =====
-- One file through the whole script: what the tables then hold of it.
use Prim.Native.Char.{Char}
use eset_incident_ai.Prelude.{
  suc, String, ◌<◌, ◌≤◌, ◌≡◌, refl, sym, ap, ◌∙◌, subst, true, false, not, some, List, [], ◌∷◌, map,
  length, All, arith, ltb, chars, str_len, is_empty, Bool-cases, inl, inr, length-append,
}
use eset_incident_ai.Exec.{ok}
use eset_incident_ai.Rag.Chunker.{TextChunker}
use eset_incident_ai.Rag.Chunker.Cover.{joined}
use eset_incident_ai.Rag.Indexer.{KnowledgeDocument, ChunkRecord, build_chunks}
use eset_incident_ai.Rag.Indexer.Numbering.{Numbered, Carries, text_of, build_chunks-Numbered}
use eset_incident_ai.Rag.FileLoader.{KnowledgeFile, document_from_file, source_id_of}
use eset_incident_ai.Persistence.Knowledge.{Knowledge, Hashes, fits, document_row}
use eset_incident_ai.Persistence.Knowledge.Chunks.{chunks_of, chunk_rows}
use eset_incident_ai.Persistence.Knowledge.Documents.{IdIsFree}
use eset_incident_ai.Persistence.Knowledge.Indexing.{
  NoCollision, stored_id, index_document-replaces,
}
use eset_incident_ai.Scripts.Ingest.{document_of, index_chunks, ingest_file}

module _ (h : Hashes) (title_case : String → String)
    (digest : (s : String) → str_len (h.sha256 s) ≤ 64) where
  source_id-fits : (path : String) → str_len (source_id_of h.sha256 title_case path) ≤ 128
  source_id-fits path = elim (Bool-cases (ltb 128 (str_len path))) [
    | inl e ↦ rw e (omega (arith, digest path))
    | inr e ↦ rw e (ground (arith, e))
  ]

  -- With digests of at most 64 characters: the row of every knowledge file fits the columns of its
  -- table, however long the path of the file is.
  pub document_from_file-fits :
      (f : KnowledgeFile) → fits (document_row h (document_from_file h.sha256 title_case f)) ≡ true
  unfolding document_from_file
  document_from_file-fits f = ground (arith, source_id-fits f.relative_path, digest f.content)

length-map {ℓ κ} :
    {A : Type ℓ} {B : Type κ} (f : A → B) (xs : List A) → length xs ≡ length (map f xs)
length-map f [] = refl
length-map f (x ∷ xs) = ap suc (length-map f xs)

module _ (h : Hashes) (title_case : String → String) {V : Type 0} (embed : String → V) where
  -- The texts of the stored rows are those of the records.
  texts-chunk_rows :
      (j : String) (rs : List ChunkRecord)
      → map (λ r. chars r.content) (chunk_rows h j rs (map (λ r. embed r.content) rs))
        ≡ map text_of rs
  texts-chunk_rows j [] = refl
  texts-chunk_rows j (r ∷ rs) = ap (λ ts. text_of r ∷ ts) (texts-chunk_rows j rs)

  -- The file stands in the tables: the stored chunks, each after the first without the characters that
  -- it shares with the one before, are the content.
  abbrev pub Covered : TextChunker → KnowledgeFile → Knowledge V → Knowledge V → Type 0
  Covered c f k k' =
      joined c.overlap_chars (
        map (λ r. chars r.content)
          (chunks_of (stored_id h (document_of h title_case embed f) k) k'.chunks))
      ≡ chars f.content

  module _ (c : TextChunker) (f : KnowledgeFile) (k : Knowledge V) where
    abbrev document : KnowledgeDocument
    document = document_of h title_case embed f

    module _ (wide : fits (document_row h document) ≡ true)
        (free : IdIsFree (document_row h document) k.documents)
        (apart : NoCollision h k.chunks (stored_id h document k)) where
      -- The chunks of a file that has any.
      index_chunks-Covered :
          (r : ChunkRecord) (rs : List ChunkRecord)
          → Numbered 0 (r ∷ rs)
          → joined c.overlap_chars (map text_of (r ∷ rs)) ≡ chars f.content
          → (k' : Knowledge V) × (index_chunks h title_case embed document (r ∷ rs) k
              ≡ (ok true, k'))
            × Covered c f k k'
      index_chunks-Covered r rs numbered whole =
          let (k', run, indexed, again) =
            index_document-replaces h document (r ∷ rs) (map (λ q. embed q.content) (r ∷ rs)) k
              (length-map (λ (q : ChunkRecord). embed q.content) (r ∷ rs)) numbered wide free
              apart in
          (
            k',
            rw run refl,
            rw indexed.replaced (
                ap (joined c.overlap_chars) (texts-chunk_rows (stored_id h document k) (r ∷ rs))
                ∙ whole),
          )

empty_chars : (s : String) → chars s ≡ [] → is_empty s ≡ true
empty_chars String.[] e = refl
empty_chars (String.◌∷◌ c s) e = cc

some_chars : (s : String) → 1 ≤ length (chars s) → is_empty s ≡ false
some_chars String.[] e = absurd (omega (arith, e))
some_chars (String.◌∷◌ c s) e = refl

module _ (h : Hashes) (title_case : String → String) {V : Type 0} (embed : String → V)
    (c : TextChunker) (f : KnowledgeFile) (k : Knowledge V) where
  -- How the script leaves one file.
  abbrev pub Ingested : Type 0
  Ingested =
      (k' : Knowledge V) × (ingest_file h title_case embed c f k
        ≡ some (ok (not (is_empty f.content)), k'))
      × (is_empty f.content ≡ true → k' ≡ k)
      × (is_empty f.content ≡ false → Covered h title_case embed c f k k')

  module _ (wide : fits (document_row h (document_of h title_case embed f)) ≡ true)
      (free : IdIsFree (document_row h (document_of h title_case embed f)) k.documents)
      (apart : NoCollision h k.chunks (stored_id h (document_of h title_case embed f) k)) where
    chunks-Ingested :
        (rs : List ChunkRecord)
        → build_chunks c
            (length (chars (document_of h title_case embed f).content))
            (document_of h title_case embed f)
          ≡ some rs
        → Numbered 0 rs
        → All (Carries c (document_of h title_case embed f)) rs
        → joined c.overlap_chars (map text_of rs) ≡ chars f.content
        → Ingested
    unfolding ingest_file document_from_file
    chunks-Ingested [] run numbered carried whole =
        let e = empty_chars f.content (sym whole) in
        (k, rw (run, e, ingest_file) refl, λ _. refl, λ n. absurd (ground (arith, e, n)))
    chunks-Ingested (r ∷ rs) run numbered carried whole =
        let (k', indexed, covered) =
          index_chunks-Covered h title_case embed c f k wide free apart r rs numbered whole in
        let e = some_chars f.content (
          subst (λ (t : List Char). 1 ≤ length t) whole
            (subst (λ n. 1 ≤ n) (sym (length-append (text_of r) _))
              (omega (arith, carried.0.2)))) in
        (
          k',
          rw (run, e, ingest_file) (ap some indexed),
          λ n. absurd (ground (arith, e, n)),
          λ _. covered,
        )

-- With an overlap smaller than the chunks and digests of at most 64 characters, for a file whose ids
-- are not in use for others: the script comes to the end of the file without an error. A file with no
-- text is not counted and changes nothing; any other is counted, and the chunks that the tables then
-- hold of it, each after the first without the characters that it shares with the one before, are its
-- whole text.
pub ingest_file-Ingested :
    (h : Hashes) (title_case : String → String) {V : Type 0} (embed : String → V) (c : TextChunker)
    (f : KnowledgeFile) (k : Knowledge V)
    → ((s : String) → str_len (h.sha256 s) ≤ 64)
    → c.overlap_chars < c.max_chars
    → IdIsFree (document_row h (document_of h title_case embed f)) k.documents
    → NoCollision h k.chunks (stored_id h (document_of h title_case embed f) k)
    → Ingested h title_case embed c f k
unfolding document_from_file
ingest_file-Ingested h title_case embed c f k digest smaller free apart =
    let (rs, run, numbered, carried, whole) =
      build_chunks-Numbered c (document_of h title_case embed f) smaller in
    chunks-Ingested h title_case embed c f k (document_from_file-fits h title_case digest f) free
      apart rs run numbered carried whole
