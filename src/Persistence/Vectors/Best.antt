-- ===== src/Persistence/Vectors/Best.antt =====
-- What a search returns: the best rows, best first.
use eset_incident_ai.Prelude.{
  ℕ, zero, suc, ◌≤◌, ◌≡◌, refl, ap, ◌∙◌, String, false, List, [], ◌∷◌, ◌++◌, map, take, drop, min,
  length, All, arith, str_len, length-take, take-append-drop,
}
use eset_incident_ai.Domain.Analysis.{RetrievedEvidence, one}
use eset_incident_ai.Sorting.{falling, precedes, sorted}
use eset_incident_ai.Sorting.Order.{
  InOrder, has_key, filter, sorted-InOrder, sorted-filter, length-sorted,
}
use eset_incident_ai.Rag.Reranker.{relevance}
use eset_incident_ai.Persistence.Approvals.Payload.Safe.{str_len-prefix}
use eset_incident_ai.Persistence.Vectors.{ChunkRow, clamp, score_of, to_evidence, scored, search}

abbrev pub EvidenceFits : RetrievedEvidence → Type 0
EvidenceFits e = (e.relevance_score ≤ one) × (str_len e.excerpt ≤ 1000)

module _ {V : Type 0} where
  -- No row of `rest` scores higher than the row.
  abbrev pub AtLeast : List (ℕ × ChunkRow V) → ℕ × ChunkRow V → Type 0
  AtLeast rest b = All (λ r. r.0 ≤ b.0) rest

  not_after :
      (b : ℕ × ChunkRow V) (xs : List (ℕ × ChunkRow V)) (n : ℕ)
      → All (λ y. precedes falling y.0 b.0 ≡ false) xs
      → AtLeast (drop n xs) b
  not_after b [] zero h = tt
  not_after b [] (suc n) h = tt
  not_after b (x ∷ xs) zero h = (ground (arith, h.0), not_after b xs zero h.1)
  not_after b (x ∷ xs) (suc n) h = not_after b xs n h.1

  take-AtLeast :
      (n : ℕ) (xs : List (ℕ × ChunkRow V))
      → InOrder falling score_of xs
      → All (AtLeast (drop n xs)) (take n xs)
  take-AtLeast zero xs h = tt
  take-AtLeast (suc n) [] h = tt
  take-AtLeast (suc n) (x ∷ xs) h = (not_after x xs n h.0, take-AtLeast n xs h.1)

  evidence_after :
      (b : ℕ × ChunkRow V) (xs : List (ℕ × ChunkRow V)) (n : ℕ)
      → All (λ y. precedes falling y.0 b.0 ≡ false) xs
      → All (λ e. precedes falling (relevance e) (clamp b.0) ≡ false) (map to_evidence (take n xs))
  unfolding to_evidence
  evidence_after b xs zero h = tt
  evidence_after b [] (suc n) h = tt
  evidence_after b (x ∷ xs) (suc n) h = (ground (arith, h.0), evidence_after b xs n h.1)

  evidence-InOrder :
      (n : ℕ) (xs : List (ℕ × ChunkRow V))
      → InOrder falling score_of xs
      → InOrder falling relevance (map to_evidence (take n xs))
  unfolding to_evidence
  evidence-InOrder zero xs h = tt
  evidence-InOrder (suc n) [] h = tt
  evidence-InOrder (suc n) (x ∷ xs) h = (evidence_after x xs n h.0, evidence-InOrder n xs h.1)

  evidence-Fits : (xs : List (ℕ × ChunkRow V)) → All EvidenceFits (map to_evidence xs)
  unfolding to_evidence
  evidence-Fits [] = tt
  evidence-Fits (x ∷ xs) = ((omega arith, str_len-prefix 1000 x.1.content), evidence-Fits xs)

-- A search splits the rows that have an embedding, with their scores, in two: for each score the rows
-- with that score are the same, in the order of the table. The first part has `limit` rows, or all if
-- there are fewer, and none of the others scores higher than one of them; they are what is returned.
-- The pieces of evidence are in falling order of relevance, which is never above 1.0, and no excerpt
-- is longer than 1,000 characters.
pub search-Best :
    {V : Type 0} (embed : String → V) (similarity : V → V → ℕ) (rows : List (ChunkRow V))
    (query : String) (limit : ℕ)
    → (best rest : List (ℕ × ChunkRow V)) × (search embed similarity rows query limit
        ≡ map to_evidence best)
      × ((score : ℕ)
          → filter (has_key falling score_of score) (best ++ rest)
            ≡ filter (has_key falling score_of score) (scored embed similarity (embed query) rows))
      × (length best ≡ min limit (length (scored embed similarity (embed query) rows)))
      × All (AtLeast rest) best
      × InOrder falling relevance (search embed similarity rows query limit)
      × All EvidenceFits (search embed similarity rows query limit)
unfolding search
search-Best {V = V} embed similarity rows query limit = (
  take limit all,
  drop limit all,
  refl,
  λ score.
      ap (filter (has_key falling score_of score)) (take-append-drop limit all)
      ∙ sorted-filter falling score_of score found,
  length-take limit all ∙ ap (min limit) (length-sorted falling score_of found),
  take-AtLeast limit all in_order,
  evidence-InOrder limit all in_order,
  evidence-Fits (take limit all),
)
  where
    found : List (ℕ × ChunkRow V)
    found = scored embed similarity (embed query) rows

    all : List (ℕ × ChunkRow V)
    all = sorted falling score_of found

    in_order : InOrder falling score_of all
    in_order = sorted-InOrder falling score_of found
