-- ===== src/Templates/Store.antt =====
-- The rotation of a template: the active templates of the student and pose are archived, and the
-- new one is inserted, each with its log row.
use text.Mathlib.Text.{◌==◌ as str_eq}
use attendence_v.Prelude.{
  ℕ, String, Bool, false, ◌&&◌, some, List, [], ◌∷◌, ◌++◌, filter, if◌then◌else◌, ◌==◌,
}
use attendence_v.Storage.{Db}
use attendence_v.Storage.Models.{StudentEmbedding, TemplateAuditLog, Json}

-- The WHERE clause of the rotation.
unfoldable pub is_active_pose : ℕ → String → StudentEmbedding → Bool
is_active_pose k pose e = (k == e.student_id) && str_eq pose e.pose_label && e.is_active

unfoldable pub actives : ℕ → String → List StudentEmbedding → List StudentEmbedding
actives k pose = filter (is_active_pose k pose)

abbrev pub deactivated : StudentEmbedding → StudentEmbedding
deactivated e = record e { is_active = false }

unfoldable pub archive_rows : ℕ → String → List StudentEmbedding → List StudentEmbedding
archive_rows k pose [] = []
archive_rows k pose (e ∷ es) =
    let rest = archive_rows k pose es in
    if is_active_pose k pose e then deactivated e ∷ rest else e ∷ rest

abbrev pub archived_log : ℕ → List (String × Json) → StudentEmbedding → TemplateAuditLog
archived_log k metadata e = record {
  student_id = k;
  student_embedding_id = some e.id;
  action = "archived";
  pose_label = some e.pose_label;
  quality_score = some e.quality_score;
  event_metadata = metadata;
}

unfoldable pub archived_logs :
    ℕ → List (String × Json) → List StudentEmbedding → List TemplateAuditLog
archived_logs k metadata [] = []
archived_logs k metadata (e ∷ es) = archived_log k metadata e ∷ archived_logs k metadata es

-- The loop over the active templates that the query found.
unfoldable pub archive : ℕ → String → List (String × Json) → List StudentEmbedding → Db → Db
archive k pose metadata found d = record d {
  student_embeddings = archive_rows k pose d.student_embeddings;
  template_audit_logs = d.template_audit_logs ++ archived_logs k metadata found;
}

unfoldable pub insert_template : StudentEmbedding → Db → Db
insert_template e d = record d { student_embeddings = d.student_embeddings ++ e ∷ [] }

abbrev pub created_log : StudentEmbedding → List (String × Json) → TemplateAuditLog
created_log e metadata = record {
  student_id = e.student_id;
  student_embedding_id = some e.id;
  action = "created";
  pose_label = some e.pose_label;
  quality_score = some e.quality_score;
  event_metadata = metadata;
}

abbrev pub add_template_log : TemplateAuditLog → Db → Db
add_template_log row d = record d { template_audit_logs = d.template_audit_logs ++ row ∷ [] }
