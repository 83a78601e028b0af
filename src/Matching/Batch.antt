-- ===== src/Matching/Batch.antt =====
-- The batch query agrees with one query for each face.
use attendence_v.Prelude.{
  ℕ, suc, ◌<◌, ◌≡◌, refl, ap, ◌∙◌, Option, none, some, List, [], ◌∷◌, map, lookup, insert,
  lookup-insert_self, lookup-insert_ne, length, arith,
}
use attendence_v.Prelude.Double.{Double}
use attendence_v.Storage.{Db}
use attendence_v.Storage.Models.{StudentEmbedding}
use attendence_v.Matching.{
  EmbeddingMatch, Vectors, BatchRow, candidates, judge_nearest, resolve_nearest_embedding_match,
  classify_match, batch_row, batch_query, matches_by_rank, by_rank, resolve_vector_matches,
}

module _ {Vector : Type 0} (vectors : Vectors Vector) (match_threshold : Double) (d : Db) where
  -- The single query for the vector that a text stands for.
  abbrev pub one_by_one : Vector → EmbeddingMatch
  one_by_one v = resolve_nearest_embedding_match vectors match_threshold d (vectors.seven_digits v)

  abbrev table : ℕ → List Vector → List (ℕ × EmbeddingMatch) → List (ℕ × EmbeddingMatch)
  table rank vs matches =
      matches_by_rank vectors match_threshold d (batch_query vectors match_threshold d rank vs)
        matches

  abbrev judged : BatchRow → List (ℕ × EmbeddingMatch) → List (ℕ × EmbeddingMatch)
  judged row matches =
      insert row.rank
        (classify_match vectors match_threshold d row.student_id row.embedding_id
          row.cosine_similarity)
        matches

  judged_lem :
      (rank : ℕ) (v : Vector) (o : Option StudentEmbedding) (matches : List (ℕ × EmbeddingMatch))
      → judged (batch_row vectors match_threshold d rank v o) matches
        ≡ insert rank (judge_nearest vectors match_threshold d v o) matches
  unfolding classify_match batch_row judge_nearest
  judged_lem rank v none matches = refl
  judged_lem rank v (some e) matches = refl

  -- A vector's row enters the result of its single query under its rank.
  table_lem :
      (rank : ℕ) (v : Vector) (vs : List Vector) (matches : List (ℕ × EmbeddingMatch))
      → table rank (v ∷ vs) matches ≡ table (suc rank) vs (insert rank (one_by_one v) matches)
  unfolding matches_by_rank batch_query resolve_nearest_embedding_match
  table_lem rank v vs matches = ap (table (suc rank) vs) (
      judged_lem rank (vectors.seven_digits v)
        (vectors.scan (vectors.seven_digits v) (candidates d)) matches)

  -- Later ranks leave an earlier entry alone.
  lookup-table :
      (k rank : ℕ) (vs : List Vector) (matches : List (ℕ × EmbeddingMatch))
      → k < rank
      → lookup k (table rank vs matches) ≡ lookup k matches
  unfolding matches_by_rank batch_query
  lookup-table k rank [] matches h = refl
  lookup-table k rank (v ∷ vs) matches h =
      ap (lookup k) (table_lem rank v vs matches)
      ∙ lookup-table k (suc rank) vs (insert rank (one_by_one v) matches) (omega arith)
      ∙ lookup-insert_ne k rank (one_by_one v) matches (λ e. omega arith)

  by_rank-table :
      (rank : ℕ) (vs : List Vector) (matches : List (ℕ × EmbeddingMatch))
      → by_rank vectors match_threshold d rank (length vs) (table rank vs matches)
        ≡ map one_by_one vs
  unfolding by_rank
  by_rank-table rank [] matches = refl
  by_rank-table rank (v ∷ vs) matches =
      let later = insert rank (one_by_one v) matches in
      let here : lookup rank (table (suc rank) vs later) ≡ some (one_by_one v) =
        lookup-table rank (suc rank) vs later (omega arith)
        ∙ lookup-insert_self rank (one_by_one v) matches in
      rw (table_lem rank v vs matches, here)
        (ap (◌∷◌ (one_by_one v)) (by_rank-table (suc rank) vs later))

  -- The batch gives every face the match that a query of its own gives, in the order of the faces,
  -- for the vector that its text with seven digits stands for.
  pub resolve_vector_matches_lem :
      (vs : List Vector) → resolve_vector_matches vectors match_threshold d vs ≡ map one_by_one vs
  unfolding resolve_vector_matches
  resolve_vector_matches_lem [] = refl
  resolve_vector_matches_lem (v ∷ vs) = by_rank-table 1 (v ∷ vs) []
