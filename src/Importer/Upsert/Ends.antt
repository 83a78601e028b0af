-- ===== src/Importer/Upsert/Ends.antt =====
-- What an upsert of the importer leaves in the committed rows.
use attendence_v.Prelude.{
  ◌≡◌, refl, sym, ◌∙◌, if◌then◌else◌, Bool, true, false, String, List, [], ◌∷◌, arith, Bool-cases,
  inl, inr, ◌&&◌, not,
}
use attendence_v.Storage.{
  Db, Session, Platform, Result, ok, raised, pure, resume, with_commit, flush,
}
use attendence_v.Storage.Atomic.{Quiet, quiet_rules}
use attendence_v.Storage.Models.{StudentEmbedding}
use attendence_v.Crud.Blocks.{Lands, with_commit-Lands}
use attendence_v.Templates.Store.{actives, created_log, add_template_log}
use attendence_v.Templates.Rotation.{rotated as rotation}
use attendence_v.Importer.Upsert.{
  Upserted, skipped_active_exists, imported, rotated, rotation_reason, import_source,
  is_none_active, insert_import, write_import, skip_or_write, settle_import, upsert_template,
}

module _ (p : Platform) (run_id : String) (overwrite : Bool) (e : StudentEmbedding) where
  -- The database after an import: the rotation, with the log row of the new template.
  abbrev pub with_import : Db → Db
  with_import d =
      add_template_log (created_log e (import_source run_id))
        (rotation rotation_reason (actives e.student_id e.pose_label d.student_embeddings) e d)

  -- The committed rows by the outcome: only an overwrite rotates, and a skip or an exception
  -- changes nothing.
  abbrev pub UpsertEnds : Db → Result Upserted × Session → Type 0
  UpsertEnds d (ok skipped_active_exists, s) = s.committed ≡ d
  UpsertEnds d (ok (imported k), s) =
      (k ≡ e.id)
      × (s.committed ≡ with_import d)
      × (actives e.student_id e.pose_label d.student_embeddings ≡ [])
  UpsertEnds d (ok (rotated k), s) = (k ≡ e.id) × (s.committed ≡ with_import d) × (overwrite ≡ true)
  UpsertEnds d (raised x, s) = s.committed ≡ d

  module _ (s : Session) (clean : s.committed ≡ s.working) where
    abbrev found : List StudentEmbedding
    found = actives e.student_id e.pose_label s.working.student_embeddings

    Quiet-insert_import : Quiet (insert_import p run_id overwrite e found)
    unfolding insert_import
    Quiet-insert_import = search quiet_rules

    insert_import-working :
        (a : Unit {0})
        → (insert_import p run_id overwrite e found s).0 ≡ ok a
        → (insert_import p run_id overwrite e found s).1.working ≡ with_import s.working
    unfolding insert_import flush
    insert_import-working a h = ground arith

    resumed-UpsertEnds :
        (found' : List StudentEmbedding)
        → found' ≡ found
        → (is_none_active found' ≡ false → overwrite ≡ true)
        → (o : Result (Unit {0}) × Session) → Lands s (λ _. with_import s.working) o
        → UpsertEnds s.working
            (resume (λ _. pure (if is_none_active found' then imported e.id else rotated e.id)) o)
    resumed-UpsertEnds [] same allowed (ok _, s') l = (refl, l.0, sym same)
    resumed-UpsertEnds (x ∷ xs) same allowed (ok _, s') l = (refl, l.0, allowed refl)
    resumed-UpsertEnds [] same allowed (raised x, s') l = l ∙ clean
    resumed-UpsertEnds (y ∷ ys) same allowed (raised x, s') l = l ∙ clean

    write_import-UpsertEnds :
        (is_none_active found ≡ false → overwrite ≡ true)
        → UpsertEnds s.working (write_import p run_id overwrite e found s)
    unfolding write_import
    write_import-UpsertEnds allowed =
        resumed-UpsertEnds found refl allowed
          (with_commit p (insert_import p run_id overwrite e found) s)
          (with_commit-Lands p (insert_import p run_id overwrite e found) s
            (λ _. with_import s.working) Quiet-insert_import insert_import-working)

    skip_or_write-UpsertEnds : UpsertEnds s.working (skip_or_write p run_id overwrite e found s)
    unfolding skip_or_write
    skip_or_write-UpsertEnds = elim (Bool-cases (not (is_none_active found) && not overwrite)) [
      | inl skip ↦ rw skip clean
      | inr write ↦ rw write (write_import-UpsertEnds (λ busy. ground arith))
    ]

    settle_import-UpsertEnds :
        (is_integrity : Db → Bool) (o : Result Upserted × Session)
        → UpsertEnds s.working o
        → UpsertEnds s.working (settle_import p run_id overwrite e is_integrity o)
    unfolding settle_import
    settle_import-UpsertEnds is_integrity (ok skipped_active_exists, s') h = h
    settle_import-UpsertEnds is_integrity (ok (imported k), s') h = h
    settle_import-UpsertEnds is_integrity (ok (rotated k), s') h = h
    settle_import-UpsertEnds is_integrity (raised x, s') h = ground arith

    pub upsert_template-UpsertEnds :
        (is_integrity : Db → Bool)
        → UpsertEnds s.working (upsert_template p run_id overwrite e is_integrity s)
    unfolding upsert_template
    upsert_template-UpsertEnds is_integrity =
        settle_import-UpsertEnds is_integrity _ skip_or_write-UpsertEnds
