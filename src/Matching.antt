-- ===== src/Matching.antt =====
-- Whose face it is: backend/app/services/pipeline/matching.py.
pub mod Batch
pub mod Identity
mod Tests
use attendence_v.Prelude.{
  ℕ, zero, suc, ◌+◌, Bool, true, false, ◌&&◌, not, Option, none, some, List, [], ◌∷◌, map, filter,
  All, lookup, insert, length, if◌then◌else◌, ◌≡◌, ◌==◌,
}
use attendence_v.Prelude.Double.{Double, ltb_double, is_finite}
use attendence_v.Storage.{Db}
use attendence_v.Storage.Models.{Student, StudentEmbedding}
use attendence_v.Attendance.Guards.{find_student}

pub record EmbeddingMatch : Type 0 where
  pub student_id : Option ℕ
  pub embedding_id : Option ℕ
  pub cosine_similarity : Option Double

-- pgvector over vectors of a type: the similarity of a row, the row that an ordered index scan with
-- LIMIT 1 gives, which is one of the rows, and the vector that its text with seven digits stands
-- for.
pub record Vectors (Vector : Type 0) : Type 1 where
  pub similarity : Vector → StudentEmbedding → Double
  pub scan : Vector → List StudentEmbedding → Option StudentEmbedding
  pub seven_digits : Vector → Vector
  pub scanned :
      (P : StudentEmbedding → Type 0) (v : Vector) (es : List StudentEmbedding)
      (e : StudentEmbedding)
      → All P es
      → scan v es ≡ some e
      → P e

-- A row of the batch query; the lateral part is null where there is no template at all.
pub record BatchRow : Type 0 where
  pub rank : ℕ
  pub student_id : Option ℕ
  pub embedding_id : Option ℕ
  pub cosine_similarity : Option Double

abbrev pub empty_match : EmbeddingMatch
empty_match = record { student_id = none; embedding_id = none; cosine_similarity = none }

unfoldable pub has_active_student : List Student → StudentEmbedding → Bool
has_active_student students e = elim (find_student e.student_id students) [
  | none ↦ false
  | some student ↦ student.is_active
]

-- The JOIN and the WHERE clauses.
unfoldable pub candidates : Db → List StudentEmbedding
candidates d = filter (λ e. e.is_active && has_active_student d.students e) d.student_embeddings

module _ {Vector : Type 0} (vectors : Vectors Vector) (match_threshold : Double) (d : Db) where
  -- The end of `_resolve_nearest_embedding_match`, for the row that came back.
  unfoldable pub judge_nearest : Vector → Option StudentEmbedding → EmbeddingMatch
  judge_nearest v none = empty_match
  judge_nearest v (some e) =
      let similarity = vectors.similarity v e in
      if not (is_finite similarity)
      then empty_match
      else if ltb_double similarity match_threshold
      then record {
        student_id = none;
        embedding_id = some e.id;
        cosine_similarity = some similarity;
      }
      else record {
        student_id = some e.student_id;
        embedding_id = some e.id;
        cosine_similarity = some similarity;
      }

  unfoldable pub resolve_nearest_embedding_match : Vector → EmbeddingMatch
  resolve_nearest_embedding_match v = judge_nearest v (vectors.scan v (candidates d))

  unfoldable pub classify_match : Option ℕ → Option ℕ → Option Double → EmbeddingMatch
  classify_match student_id embedding_id none = empty_match
  classify_match student_id embedding_id (some similarity) =
      if not (is_finite similarity)
      then empty_match
      else if ltb_double similarity match_threshold
      then record {
        student_id = none;
        embedding_id = embedding_id;
        cosine_similarity = some similarity;
      }
      else record {
        student_id = student_id;
        embedding_id = embedding_id;
        cosine_similarity = some similarity;
      }

  unfoldable pub batch_row : ℕ → Vector → Option StudentEmbedding → BatchRow
  batch_row rank v none = record {
    rank = rank;
    student_id = none;
    embedding_id = none;
    cosine_similarity = none;
  }
  batch_row rank v (some e) = record {
    rank = rank;
    student_id = some e.student_id;
    embedding_id = some e.id;
    cosine_similarity = some (vectors.similarity v e);
  }

  -- `_BATCH_NEAREST_MATCH_SQL`, on the texts of the vectors: ranks from `rank` on.
  unfoldable pub batch_query : ℕ → List Vector → List BatchRow
  batch_query rank [] = []
  batch_query rank (v ∷ vs) =
      let literal = vectors.seven_digits v in
      batch_row rank literal (vectors.scan literal (candidates d)) ∷ batch_query (suc rank) vs

  -- `matches_by_rank` after the loop over the rows.
  unfoldable pub matches_by_rank :
      List BatchRow → List (ℕ × EmbeddingMatch) → List (ℕ × EmbeddingMatch)
  matches_by_rank [] matches = matches
  matches_by_rank (row ∷ rows) matches = matches_by_rank rows (
      insert row.rank (classify_match row.student_id row.embedding_id row.cosine_similarity)
        matches)

  abbrev pub or_empty : Option EmbeddingMatch → EmbeddingMatch
  or_empty none = empty_match
  or_empty (some found) = found

  -- `[matches_by_rank.get(rank, empty_match) for rank in range(rank, rank + n)]`
  unfoldable pub by_rank : ℕ → ℕ → List (ℕ × EmbeddingMatch) → List EmbeddingMatch
  by_rank rank zero matches = []
  by_rank rank (suc n) matches = or_empty (lookup rank matches) ∷ by_rank (suc rank) n matches

  unfoldable pub resolve_vector_matches : List Vector → List EmbeddingMatch
  resolve_vector_matches [] = []
  resolve_vector_matches (v ∷ vs) =
      by_rank 1 (length (v ∷ vs)) (matches_by_rank (batch_query 1 (v ∷ vs)) [])
