-- ===== src/Matching/Tests.antt =====
-- A face next to the template of student 5.
use attendence_v.Prelude.{
  ℕ, ◌≡◌, refl, subst, Option, none, some, true, List, [], ◌∷◌, All, map, arith,
}
use attendence_v.Prelude.Double.{half_double}
use attendence_v.Storage.{Db}
use attendence_v.Storage.Models.{StudentEmbedding}
use attendence_v.Fixtures.{class_db}
use attendence_v.Matching.{
  Vectors, candidates, has_active_student, judge_nearest, resolve_nearest_embedding_match,
  resolve_vector_matches,
}
use attendence_v.Matching.Batch.{one_by_one, resolve_vector_matches_lem}
use attendence_v.Matching.Identity.{Identified, resolve_nearest_embedding_match-Identified}

abbrev first : List StudentEmbedding → Option StudentEmbedding
first [] = none
first (e ∷ es) = some e

first_is_one :
    (P : StudentEmbedding → Type 0) (es : List StudentEmbedding) (e : StudentEmbedding)
    → All P es
    → first es ≡ some e
    → P e
first_is_one P [] e h picked = absurd (ground arith)
first_is_one P (x ∷ es) e h picked = let same : x ≡ e = ground arith in subst P same h.0

-- Every vector is as near to every template.
abbrev level : Vectors ℕ
level = record {
  similarity = λ v e. half_double;
  scan = λ v es. first es;
  seven_digits = λ v. v;
  scanned = λ P v es e. first_is_one P es e;
}

abbrev enrolled_db : Db
enrolled_db = record class_db {
  student_embeddings =
      record {
        id = 40;
        student_id = 5;
        embedding = [];
        pose_label = "front";
        quality_score = half_double;
        is_active = true;
        template_version = none;
      }
      ∷ [];
}

resolve_vector_matches_example :
    resolve_vector_matches level half_double enrolled_db (1 ∷ 2 ∷ [])
    ≡ map (one_by_one level half_double enrolled_db) (1 ∷ 2 ∷ [])
resolve_vector_matches_example =
    resolve_vector_matches_lem level half_double enrolled_db (1 ∷ 2 ∷ [])

face_is_known :
    (resolve_nearest_embedding_match level half_double enrolled_db 1).student_id ≡ some 5
unfolding resolve_nearest_embedding_match judge_nearest candidates has_active_student
face_is_known = refl

resolve_nearest_embedding_match_example :
    Identified level half_double enrolled_db 1 5
      (resolve_nearest_embedding_match level half_double enrolled_db 1)
resolve_nearest_embedding_match_example =
    resolve_nearest_embedding_match-Identified level half_double enrolled_db 1 5 face_is_known
