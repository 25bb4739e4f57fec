-- ===== src/Persistence/Vectors.antt =====
-- src/eset_incident_ai/infrastructure/persistence/vector_repository.py: the search for evidence. The
-- rows are those of the join of the two tables, in the order in which the database returns them; the
-- column `embedding` holds what `json.dumps` wrote of an embedding. `similarity` is
-- `_cosine_similarity` and `embed` the embedder, both on floats: they are parameters. A score is
-- counted in ten-thousandths above -1.0.
pub mod Best
use eset_incident_ai.Prelude.{
  ℕ, ◌+◌, ◌-◌, min, String, Option, none, some, List, [], ◌∷◌, map, take, prefix,
}
use eset_incident_ai.Domain.Analysis.{RetrievedEvidence, one}
use eset_incident_ai.Sorting.{falling, sorted}

pub record ChunkRow (V : Type 0) : Type 0 where
  pub chunk_id : String
  pub source_type : String
  pub source_id : String
  pub title : String
  pub content : String
  pub metadata : Option (List (String × String))
  pub embedding : Option V

-- `dict(row[5] or {})`.
abbrev metadata_or_empty : Option (List (String × String)) → List (String × String)
metadata_or_empty none = []
metadata_or_empty (some m) = m

-- `max(min(score, 1.0), 0.0)`, in ten-thousandths.
abbrev pub clamp : ℕ → ℕ
clamp score = min score (one + one) - one

module _ {V : Type 0} where
  abbrev pub score_of : ℕ × ChunkRow V → ℕ
  score_of p = p.0

  unfoldable pub to_evidence : ℕ × ChunkRow V → RetrievedEvidence
  to_evidence (score, row) = record {
    evidence_id = row.chunk_id;
    source_type = row.source_type;
    source_id = row.source_id;
    title = row.title;
    excerpt = prefix 1000 row.content;
    relevance_score = clamp score;
    occurred_at = none;
    metadata = metadata_or_empty row.metadata;
  }

module _ {V : Type 0} (embed : String → V) (similarity : V → V → ℕ) where
  -- One row: `WHERE c.embedding IS NOT NULL`, and its score.
  abbrev pub score_row : V → ChunkRow V → Option V → List (ℕ × ChunkRow V) → List (ℕ × ChunkRow V)
  score_row query row none later = later
  score_row query row (some embedding) later = (similarity query embedding, row) ∷ later

  unfoldable pub scored : V → List (ChunkRow V) → List (ℕ × ChunkRow V)
  scored query [] = []
  scored query (row ∷ rows) = score_row query row row.embedding (scored query rows)

  unfoldable pub search : List (ChunkRow V) → String → ℕ → List RetrievedEvidence
  search rows query limit =
      map to_evidence (take limit (sorted falling score_of (scored (embed query) rows)))
