-- ===== src/Matching/Identity.antt =====
-- What a match says of the student.
use attendence_v.Prelude.{
  ℕ, ◌≡◌, refl, Bool, true, false, ◌&&◌, Option, none, some, List, [], ◌∷◌, All, filter, arith,
  Bool-cases, Option-cases, inl, inr,
}
use attendence_v.Prelude.Double.{Double, ltb_double, is_finite}
use attendence_v.Storage.{Db}
use attendence_v.Storage.Models.{Student, StudentEmbedding}
use attendence_v.Attendance.Guards.{find_student}
use attendence_v.Matching.{
  EmbeddingMatch, Vectors, has_active_student, candidates, judge_nearest,
  resolve_nearest_embedding_match,
}

All-filter : {A : Type 0} (p : A → Bool) (xs : List A) → All (λ x. p x ≡ true) (filter p xs)
All-filter p [] = tt
All-filter p (x ∷ xs) = elim (Bool-cases (p x)) [
  | inl keep ↦ rw keep (keep, All-filter p xs)
  | inr skip ↦ rw skip (All-filter p xs)
]

-- A row that a match may stand on: an active template of an active student of that identifier,
-- which exists.
pub record IsLive (d : Db) (e : StudentEmbedding) : Type 0 where
  pub student : Student
  pub found : find_student e.student_id d.students ≡ some student
  pub active_student : student.is_active ≡ true
  pub active : e.is_active ≡ true

has_active_student_lem :
    (d : Db) (e : StudentEmbedding)
    → (e.is_active && has_active_student d.students e) ≡ true
    → IsLive d e
unfolding has_active_student
has_active_student_lem d e h = elim (Option-cases (find_student e.student_id d.students)) [
  | inl missing ↦ absurd (ground arith)
  | inr (student, found) ↦ record {
    student = student;
    found = found;
    active_student = ground arith;
    active = ground arith;
  }
]

module _ {Vector : Type 0} (vectors : Vectors Vector) (match_threshold : Double) (d : Db) where
  -- Why a match names a student: one of the live templates is his, with a finite similarity that is
  -- not below the threshold.
  pub record Identified (v : Vector) (k : ℕ) (m : EmbeddingMatch) : Type 0 where
    pub row : StudentEmbedding
    pub live : IsLive d row
    pub owner : row.student_id ≡ k
    pub template : m.embedding_id ≡ some row.id
    pub score : m.cosine_similarity ≡ some (vectors.similarity v row)
    pub finite : is_finite (vectors.similarity v row) ≡ true
    pub enough : ltb_double (vectors.similarity v row) match_threshold ≡ false

  live_candidates :
      All (λ e. (e.is_active && has_active_student d.students e) ≡ true) (candidates d)
  unfolding candidates
  live_candidates =
      All-filter (λ e. e.is_active && has_active_student d.students e) d.student_embeddings

  judge_nearest-Identified :
      (v : Vector) (k : ℕ) (o : Option StudentEmbedding)
      → ((e : StudentEmbedding) → o ≡ some e → IsLive d e)
      → (judge_nearest vectors match_threshold d v o).student_id ≡ some k
      → Identified v k (judge_nearest vectors match_threshold d v o)
  unfolding judge_nearest
  judge_nearest-Identified v k none live h = absurd (ground arith)
  judge_nearest-Identified v k (some e) live h =
      let fin : is_finite (vectors.similarity v e) ≡ true = ground arith in
      let near : ltb_double (vectors.similarity v e) match_threshold ≡ false = ground arith in
      simp (fin, near)
        (record {
          row = e;
          live = live e refl;
          owner = ground arith;
          template = refl;
          score = refl;
          finite = fin;
          enough = near;
        })

  -- A match names a student only by an active template of his, as an active student that exists,
  -- with a finite similarity not below the threshold, and reports that template and similarity.
  pub resolve_nearest_embedding_match-Identified :
      (v : Vector) (k : ℕ)
      → (resolve_nearest_embedding_match vectors match_threshold d v).student_id ≡ some k
      → Identified v k (resolve_nearest_embedding_match vectors match_threshold d v)
  unfolding resolve_nearest_embedding_match
  resolve_nearest_embedding_match-Identified v k h =
      judge_nearest-Identified v k (vectors.scan v (candidates d))
        (λ e picked. has_active_student_lem d e (
          vectors.scanned (λ e'. (e'.is_active && has_active_student d.students e') ≡ true) v
            (candidates d) e live_candidates picked))
        h
