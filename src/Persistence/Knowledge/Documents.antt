-- ===== src/Persistence/Knowledge/Documents.antt =====
-- The row of a document: the first statement of `index_document`, and the same statement again.
use eset_incident_ai.Prelude.{
  String, ◌≡◌, refl, ap, true, false, inl, inr, Option, none, some, List, [], ◌∷◌, ◌++◌, any, arith,
  str_eq, eq_refl, Bool-cases, Option-cases,
}
use eset_incident_ai.Exec.{ok}
use eset_incident_ai.Persistence.Knowledge.{
  StoredDocument, same_document, find_same, overwrite, update_same, fits, store_document,
}

-- The row of the document `new`, with the id that the statement returns.
pub record Described (new d : StoredDocument) (stored_id : String) : Type 0 where
  pub named : d.id ≡ stored_id
  pub titled : d.title ≡ new.title
  pub filled : d.content ≡ new.content
  pub tagged : d.metadata ≡ new.metadata

module _ (new : StoredDocument) where
  same_document_self : same_document new new ≡ true
  same_document_self = rw (eq_refl new.source_type, eq_refl new.source_id, eq_refl new.content_hash)

  find_same-inserted :
      (ds : List StoredDocument)
      → find_same new ds ≡ none
      → find_same new (ds ++ new ∷ []) ≡ some new
  unfolding find_same
  find_same-inserted [] e = rw same_document_self
  find_same-inserted (d ∷ ds) e = elim (Bool-cases (same_document new d)) [
    | inl s ↦ absurd (ground (arith, s, e))
    | inr s ↦ rw s (find_same-inserted ds (rw s at e))
  ]

  update_same-inserted :
      (ds : List StoredDocument)
      → find_same new ds ≡ none
      → update_same new (ds ++ new ∷ []) ≡ ds ++ new ∷ []
  unfolding find_same update_same
  update_same-inserted [] e = rw same_document_self
  update_same-inserted (d ∷ ds) e = elim (Bool-cases (same_document new d)) [
    | inl s ↦ absurd (ground (arith, s, e))
    | inr s ↦ rw s (ap (λ es. d ∷ es) (update_same-inserted ds (rw s at e)))
  ]

  find_same-update_same :
      (ds : List StoredDocument) (d : StoredDocument)
      → find_same new ds ≡ some d
      → find_same new (update_same new ds) ≡ some (overwrite new d)
  unfolding find_same update_same
  find_same-update_same [] d e = cc
  find_same-update_same (b ∷ ds) d e = elim (Bool-cases (same_document new b)) [
    | inl s ↦
        let same : b ≡ d = ground (arith, e, s) in
        rw (s, s) (ap (λ (c : StoredDocument). some (overwrite new c)) same)
    | inr s ↦ rw (s, s) (find_same-update_same ds d (rw s at e))
  ]

  update_same_again :
      (ds : List StoredDocument) → update_same new (update_same new ds) ≡ update_same new ds
  unfolding update_same
  update_same_again [] = refl
  update_same_again (b ∷ ds) = elim (Bool-cases (same_document new b)) [
    | inl s ↦ rw (s, s) (ap (λ es. overwrite new b ∷ es) (update_same_again ds))
    | inr s ↦ rw (s, s) (ap (λ es. b ∷ es) (update_same_again ds))
  ]

  -- The id of the document's row, or of the new row.
  abbrev pub id_of : Option StoredDocument → String
  id_of none = new.id
  id_of (some d) = d.id

  -- The id is that of a row of the document, or free.
  abbrev pub IdIsFree : List StoredDocument → Type 0
  IdIsFree ds = find_same new ds ≡ none → any (λ d. str_eq d.id new.id) ds ≡ false

  -- The statement succeeds; then the document has its row, and the statement changes nothing more.
  abbrev pub Stored : List StoredDocument → String → List StoredDocument → Type 0
  Stored ds stored_id ds' =
      (store_document new ds ≡ ok (stored_id, ds'))
      × ((d : StoredDocument) × (find_same new ds' ≡ some d) × Described new d stored_id)
      × (store_document new ds' ≡ ok (stored_id, ds'))

  pub store_document-Stored :
      (ds : List StoredDocument)
      → fits new ≡ true
      → IdIsFree ds
      → (ds' : List StoredDocument) × Stored ds (id_of (find_same new ds)) ds'
  unfolding store_document
  store_document-Stored ds wide free = elim (Option-cases (find_same new ds)) [
    | inl e ↦ rw e (
      ds ++ new ∷ [],
      (
        rw (wide, free e) refl,
        (
          new,
          find_same-inserted ds e,
          record { named = refl; titled = refl; filled = refl; tagged = refl },
        ),
        rw (wide, find_same-inserted ds e, update_same-inserted ds e) refl,
      ),
    )
    | inr (d, e) ↦ rw e (
      update_same new ds,
      (
        rw wide refl,
        (
          overwrite new d,
          find_same-update_same ds d e,
          record { named = refl; titled = refl; filled = refl; tagged = refl },
        ),
        rw (wide, find_same-update_same ds d e, update_same_again ds) refl,
      ),
    )
  ]
