-- ===== src/Templates/Rotation.antt =====
-- The active templates after a rotation, against a map with at most one template for each student
-- and pose.
use text.Mathlib.Text.{◌==◌ as str_eq}
use text.Mathlib.TextEquality.{eq_iff}
use attendence_v.Prelude.{
  ℕ, ◌≡◌, refl, String, true, false, ◌&&◌, Option, none, some, List, [], ◌∷◌, ◌++◌, if◌then◌else◌,
  ◌==◌, arith, Bool-cases, inl, inr,
}
use attendence_v.Storage.{Db}
use attendence_v.Storage.Models.{StudentEmbedding, Json}
use attendence_v.Templates.Store.{is_active_pose, actives, archive_rows, archive, insert_template}

-- The template that a student has for a pose.
abbrev pub Gallery : Type 0
Gallery = ℕ → String → Option StudentEmbedding

abbrev pub put : ℕ → String → StudentEmbedding → Gallery → Gallery
put k pose e g k' pose' = if (k' == k) && str_eq pose' pose then some e else g k' pose'

abbrev pub listed : Option StudentEmbedding → List StudentEmbedding
listed none = []
listed (some e) = e ∷ []

-- The active rows are those of the map.
pub record Represents (d : Db) (g : Gallery) : Type 0 where
  pub at : (k : ℕ) (pose : String) → actives k pose d.student_embeddings ≡ listed (g k pose)

is_active_pose_sound :
    (k : ℕ) (pose : String) (e : StudentEmbedding)
    → is_active_pose k pose e ≡ true
    → (k ≡ e.student_id) × (pose ≡ e.pose_label)
unfolding is_active_pose
is_active_pose_sound k pose e h = (ground arith, (eq_iff pose e.pose_label).0 (ground arith))

-- An active row of one key is not active for another.
is_active_pose-other :
    (k k' : ℕ) (pose pose' : String) (e : StudentEmbedding)
    → ((k' == k) && str_eq pose' pose) ≡ false
    → is_active_pose k pose e ≡ true
    → is_active_pose k' pose' e ≡ false
unfolding is_active_pose
is_active_pose-other k k' pose pose' e other h =
    let (eq_k, eq_pose) = is_active_pose_sound k pose e h in rw (← eq_k, ← eq_pose) (ground arith)

actives-archive_self :
    (k : ℕ) (pose : String) (es : List StudentEmbedding)
    → actives k pose (archive_rows k pose es) ≡ []
unfolding actives archive_rows is_active_pose
actives-archive_self k pose [] = refl
actives-archive_self k pose (e ∷ es) = ground (arith, actives-archive_self k pose es)

actives-archive_other :
    (k k' : ℕ) (pose pose' : String) (es : List StudentEmbedding)
    → ((k' == k) && str_eq pose' pose) ≡ false
    → actives k' pose' (archive_rows k pose es) ≡ actives k' pose' es
unfolding actives archive_rows is_active_pose
actives-archive_other k k' pose pose' [] h = refl
actives-archive_other k k' pose pose' (e ∷ es) h =
    ground
      (arith, actives-archive_other k k' pose pose' es h, is_active_pose-other k k' pose pose' e h)

actives-archive :
    (k k' : ℕ) (pose pose' : String) (es : List StudentEmbedding)
    → actives k' pose' (archive_rows k pose es)
      ≡ (if (k' == k) && str_eq pose' pose then [] else actives k' pose' es)
actives-archive k k' pose pose' es = elim (Bool-cases ((k' == k) && str_eq pose' pose)) [
  | inl same ↦
      let eq_pose : pose' ≡ pose = (eq_iff pose' pose).0 (ground arith) in
      let eq_k : k' ≡ k = ground arith in rw (same, eq_pose, eq_k) (actives-archive_self k pose es)
  | inr other ↦ rw other (actives-archive_other k k' pose pose' es other)
]

-- The new row counts for its own key.
actives-append :
    (k : ℕ) (pose : String) (es : List StudentEmbedding) (e : StudentEmbedding)
    → e.is_active ≡ true
    → actives k pose (es ++ e ∷ []) ≡ (
        if (k == e.student_id) && str_eq pose e.pose_label
        then actives k pose es ++ e ∷ []
        else actives k pose es)
unfolding actives is_active_pose
actives-append k pose [] e active = ground arith
actives-append k pose (x ∷ es) e active = ground (arith, actives-append k pose es e active)

abbrev pub rotated : List (String × Json) → List StudentEmbedding → StudentEmbedding → Db → Db
rotated metadata found e d = insert_template e (archive e.student_id e.pose_label metadata found d)

actives-rotated :
    (metadata : List (String × Json)) (found : List StudentEmbedding) (e : StudentEmbedding)
    (d : Db) (g : Gallery) (k : ℕ) (pose : String)
    → e.is_active ≡ true
    → actives k pose d.student_embeddings ≡ listed (g k pose)
    → actives k pose (rotated metadata found e d).student_embeddings
      ≡ listed (put e.student_id e.pose_label e g k pose)
unfolding archive insert_template
actives-rotated metadata found e d g k pose active h = ground (
  arith,
  actives-append k pose (archive_rows e.student_id e.pose_label d.student_embeddings) e active,
  actives-archive e.student_id k e.pose_label pose d.student_embeddings,
)

-- A rotation is an assignment to the map.
pub Represents-rotated :
    (metadata : List (String × Json)) (found : List StudentEmbedding) (e : StudentEmbedding)
    (d : Db) (g : Gallery)
    → e.is_active ≡ true
    → Represents d g
    → Represents (rotated metadata found e d) (put e.student_id e.pose_label e g)
Represents-rotated metadata found e d g active r = record {
  at = λ k pose. actives-rotated metadata found e d g k pose active (r.at k pose);
}
