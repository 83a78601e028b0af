-- ===== src/Importer/Upsert.antt =====
-- `_upsert_template`: the importer's rotation, or a skip.
pub mod Ends
use attendence_v.Prelude.{
  ℕ, String, Bool, true, false, ◌&&◌, not, some, List, [], ◌∷◌, if◌then◌else◌,
}
use attendence_v.Storage.{
  Db, Session, Platform, Error, Result, ok, raised, Exec, pure, ◌>>=◌, ◌>>◌, query, add, flush,
  rollback, with_commit,
}
use attendence_v.Storage.Models.{StudentEmbedding, Json, string}
use attendence_v.Templates.Store.{actives, archive, insert_template, created_log, add_template_log}

-- The outcome with the identifier of the new row.
pub data Upserted : Type 0 where
  skipped_active_exists : Upserted
  imported rotated : ℕ → Upserted

abbrev pub rotation_reason : List (String × Json)
rotation_reason = ("reason", string "bulk_import_rotation") ∷ []

abbrev pub import_source : String → List (String × Json)
import_source run_id = ("source", string "enrollment_import_cli") ∷ ("run_id", string run_id) ∷ []

abbrev pub is_none_active : List StudentEmbedding → Bool
is_none_active [] = true
is_none_active (e ∷ es) = false

module _ (p : Platform) (run_id : String) (overwrite : Bool) (e : StudentEmbedding) where
  -- The rows and logs up to the commit.
  unfoldable pub insert_import : List StudentEmbedding → Exec (Unit {0})
  insert_import found = do
    add (archive e.student_id e.pose_label rotation_reason found)
    add (insert_template e)
    flush p
    add (add_template_log (created_log e (import_source run_id)))

  unfoldable pub write_import : List StudentEmbedding → Exec Upserted
  write_import found = do
    with_commit p (insert_import found)
    pure (if is_none_active found then imported e.id else rotated e.id)

  unfoldable pub skip_or_write : List StudentEmbedding → Exec Upserted
  skip_or_write found =
      if not (is_none_active found) && not overwrite
      then pure skipped_active_exists
      else write_import found

  -- On a session of its own, with nothing in it; `is_integrity` says whether what the database
  -- refuses of these rows is a violated constraint.
  unfoldable pub settle_import : (Db → Bool) → Result Upserted × Session → Result Upserted × Session
  settle_import is_integrity (ok outcome, s) = (ok outcome, s)
  settle_import is_integrity (raised x, s) =
      (raised x, if is_integrity s.working then rollback s else s)

  unfoldable pub upsert_template : (Db → Bool) → Exec Upserted
  upsert_template is_integrity s =
      settle_import is_integrity
        ((query (λ d. actives e.student_id e.pose_label d.student_embeddings) >>= skip_or_write) s)
