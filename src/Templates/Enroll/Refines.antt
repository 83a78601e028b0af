-- ===== src/Templates/Enroll/Refines.antt =====
-- An enrollment as an assignment to the map of templates, or nothing.
use attendence_v.Prelude.{◌≡◌, refl, sym, String, List, arith, length}
use attendence_v.Prelude.Double.{Double}
use attendence_v.Storage.{Db, Session, Platform, Result, ok, raised, with_commit, flush, commit}
use attendence_v.Storage.Atomic.{Quiet, quiet_rules}
use attendence_v.Storage.Models.{StudentEmbedding}
use attendence_v.Audit.{add_governance, log_row, emit}
use attendence_v.Audit.Policy.{Quiet-emit}
use attendence_v.Crud.Blocks.{Lands, with_commit-Lands}
use attendence_v.Templates.Store.{actives, created_log, add_template_log}
use attendence_v.Templates.Rotation.{Gallery, put, Represents, rotated, Represents-rotated}
use attendence_v.Templates.Enroll.{
  EnrollRequest, Enrolling, archived_reason, created_source, enrolled_row, enroll_event,
  write_template, store_template, settle_enrollment, enroll_student_template,
}
use attendence_v.Templates.Enroll.Admits.{Route, refused, stored, enroll_student_template-Route}

module _ (q : EnrollRequest) (p : Platform) where
  open q use {student_id}

  -- The database after an enrollment: the rotation with its logs, and its row of evidence.
  abbrev pub enrolled : StudentEmbedding → Db → Db
  enrolled e d =
      let found = actives student_id e.pose_label d.student_embeddings in
      add_governance (log_row p (enroll_event q p e (length found)))
        (add_template_log (created_log e created_source) (rotated archived_reason found e d))

  Quiet-write_template : (e : StudentEmbedding) → Quiet (write_template q p e)
  unfolding write_template
  Quiet-write_template e = search (quiet_rules, Quiet-emit) depth 12

  -- How an enrollment ends, over the templates `g` from before.
  abbrev pub EnrollEnds : Session → Gallery → Result StudentEmbedding × Session → Type 0
  EnrollEnds s g (ok e, s') =
      (s'.committed ≡ enrolled e s.working)
      × (s'.working ≡ enrolled e s.working)
      × Represents s'.committed (put student_id e.pose_label e g)
  EnrollEnds s g (raised x, s') = (s'.committed ≡ s.committed) × (s'.working ≡ s.committed)

  module _ (pose : String) (embedding : List Double) (quality : Double) where
    abbrev e : StudentEmbedding
    e = enrolled_row q p pose embedding quality

    write_template-working :
        (s : Session) (a : StudentEmbedding)
        → (write_template q p e s).0 ≡ ok a
        → (a ≡ e) × ((write_template q p e s).1.working ≡ enrolled e s.working)
    unfolding write_template emit flush
    write_template-working s a h = (ground arith, ground arith)

    Represents-enrolled :
        (d : Db) (g : Gallery)
        → Represents d g
        → Represents (enrolled e d) (put student_id pose e g)
    Represents-enrolled d g r =
        let rotation =
          Represents-rotated archived_reason (actives student_id pose d.student_embeddings) e d g
            refl r in
        record { at = rotation.at }

    write_template-Lands :
        (s : Session) → Lands s (λ _. enrolled e s.working) (with_commit p (write_template q p e) s)
    write_template-Lands s =
        with_commit-Lands p (write_template q p e) s (λ _. enrolled e s.working)
          (Quiet-write_template e) (λ a h. (write_template-working s a h).1)

    with_commit-value :
        (s : Session) (a : StudentEmbedding)
        → (with_commit p (write_template q p e) s).0 ≡ ok a
        → a ≡ e
    unfolding with_commit write_template emit flush commit
    with_commit-value s a h = ground arith

    module _ {Tensor : Type 0} (on : Enrolling Tensor) where
      settle_enrollment-EnrollEnds :
          (s : Session) (g : Gallery) (o : Result StudentEmbedding × Session)
          → ((a : StudentEmbedding) → o.0 ≡ ok a → a ≡ e)
          → Represents s.working g
          → Lands s (λ _. enrolled e s.working) o
          → EnrollEnds s g (settle_enrollment q p on o)
      unfolding settle_enrollment
      settle_enrollment-EnrollEnds s g (ok a, s') value r l =
          rw (value a refl) (l.0, l.1, rw l.0 (Represents-enrolled s.working g r))
      settle_enrollment-EnrollEnds s g (raised x, s') value r l = (l, l)

      store_template-EnrollEnds :
          (s : Session) (g : Gallery)
          → Represents s.working g
          → EnrollEnds s g (store_template q p on e s)
      unfolding store_template
      store_template-EnrollEnds s g r =
          settle_enrollment-EnrollEnds s g (with_commit p (write_template q p e) s)
            (with_commit-value s) r (write_template-Lands s)

  module _ {Tensor : Type 0} (on : Enrolling Tensor) where
    Route-EnrollEnds :
        (s : Session) (g : Gallery) (o : Result StudentEmbedding × Session)
        → s.committed ≡ s.working
        → Represents s.working g
        → Route q p on s o
        → EnrollEnds s g o
    Route-EnrollEnds s g _ fresh r (refused x) = (refl, sym fresh)
    Route-EnrollEnds s g _ fresh r (stored e admitted) =
        rw admitted.row
          (store_template-EnrollEnds e.pose_label e.embedding e.quality_score on s g r)

    -- On a session with no open change, over templates with at most one active row for each student
    -- and pose, an enrollment raises and leaves every row as it was, or it commits the template as the
    -- only active one of that student and pose, all other pairs unchanged, together with the log rows
    -- of the archived templates and the new one and the ledger row that counts them.
    pub enroll_student_template_lem :
        (s : Session) (g : Gallery)
        → s.committed ≡ s.working
        → Represents s.working g
        → EnrollEnds s g (enroll_student_template q p on s)
    enroll_student_template_lem s g fresh r =
        Route-EnrollEnds s g _ fresh r (enroll_student_template-Route q p on s)
