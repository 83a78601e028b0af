-- ===== src/Attendance/Evaluation/Storage.antt =====
-- The evaluation as a whole: all or nothing, with its evidence, and total where nothing refuses it.
use attendence_v.Prelude.{
  ℕ, ◌≤◌, ◌≡◌, refl, true, false, ◌&&◌, some, List, [], ◌∷◌, arith, ◌==◌, length,
}
use attendence_v.Storage.{Db, Session, Platform, ok, execute, flush, commit}
use attendence_v.Storage.Atomic.{Quiet, quiet_rules}
use attendence_v.Storage.Models.{ClassSessionRecord, Course}
use attendence_v.Audit.{add_governance, log_row, emit}
use attendence_v.Audit.Policy.{Quiet-emit}
use attendence_v.Crud.{transaction}
use attendence_v.Crud.Blocks.{Settled, transaction-Settled}
use attendence_v.Attendance.Guards.{require_course, find_course}
use attendence_v.Attendance.Records.{find_record, IsKeyed, upsert_all}
use attendence_v.Attendance.Records.Upsert.{upsert_all-IsKeyed}
use attendence_v.Attendance.Evaluation.{
  EvaluationRequest, set_verdict, upsert_row, upsert_rows, store_rows, returned, evaluation_event,
  store_evaluation, store_if_any, evaluate_class_attendance, student_ids,
}
use attendence_v.Attendance.Evaluation.Laws.{
  seen, expected, stored_record, find_record-upsert_all_other, set_verdict-KeepsKey, row-IsRowOf,
}

module _ (q : EvaluationRequest) (p : Platform) where
  open q use {course_id, date, required_sightings_threshold}

  -- The database after the block: the upserted rows and one row of evidence, or nothing at all
  -- where the day has neither sightings nor records.
  abbrev pub evaluated : List ClassSessionRecord → Db → Db
  evaluated [] d = d
  evaluated (r ∷ rs) d =
      add_governance (log_row p (evaluation_event q p (length (returned q (r ∷ rs) d))))
        (store_rows q (r ∷ rs) d)

  store_evaluation-working :
      (r : ClassSessionRecord) (rs : List ClassSessionRecord) (s : Session)
      (a : List ClassSessionRecord)
      → (store_evaluation q p (r ∷ rs) s).0 ≡ ok a
      → (store_evaluation q p (r ∷ rs) s).1.working ≡ evaluated (r ∷ rs) s.working
  unfolding store_evaluation execute emit flush
  store_evaluation-working r rs s a h = ground arith

  Quiet-store_evaluation : (rows : List ClassSessionRecord) → Quiet (store_evaluation q p rows)
  unfolding store_evaluation
  Quiet-store_evaluation rows = search (quiet_rules, Quiet-emit)

  store_if_any-Settled :
      (rows : List ClassSessionRecord) (s : Session)
      → s.committed ≡ s.working
      → Settled s (λ _. evaluated rows s.working) (store_if_any q p rows s)
  unfolding store_if_any
  store_if_any-Settled [] s fresh = (fresh, refl)
  store_if_any-Settled (r ∷ rs) s fresh =
      transaction-Settled p (store_evaluation q p (r ∷ rs)) s _ (Quiet-store_evaluation (r ∷ rs))
        (store_evaluation-working r rs s)

  -- On a session with no open change the evaluation raises and changes nothing, or it commits the
  -- upserted rows together with their evidence.
  pub evaluate-Settled :
      (s : Session)
      → s.committed ≡ s.working
      → Settled s
          (λ _. evaluated (upsert_rows q s.working) s.working)
          (evaluate_class_attendance q p s)
  unfolding evaluate_class_attendance require_course
  evaluate-Settled s fresh = ground (arith, store_if_any-Settled (upsert_rows q s.working) s fresh)

  evaluated-records :
      (rows : List ClassSessionRecord) (d : Db)
      → (evaluated rows d).class_session_records
        ≡ upsert_all set_verdict rows d.class_session_records
  unfolding upsert_all
  evaluated-records [] d = refl
  evaluated-records (r ∷ rs) d = refl

  after_records :
      (s : Session) {updated : List ClassSessionRecord}
      → s.committed ≡ s.working
      → (evaluate_class_attendance q p s).0 ≡ ok updated
      → (evaluate_class_attendance q p s).1.committed.class_session_records
        ≡ upsert_all set_verdict (upsert_rows q s.working) s.working.class_session_records
  after_records s fresh e =
      ground
        (arith, evaluate-Settled s fresh, evaluated-records (upsert_rows q s.working) s.working)

  store_if_any_returns :
      (rows : List ClassSessionRecord) (s : Session)
      → ((d : Db) → p.accepts d ≡ true)
      → ((d : Db) → p.commits d ≡ true)
      → (store_if_any q p rows s).0 ≡ ok (returned q rows s.working)
  unfolding store_if_any store_evaluation transaction execute emit flush commit
  store_if_any_returns [] s takes commits = refl
  store_if_any_returns (r ∷ rs) s takes commits = simp (takes, commits)

  -- After an evaluation that returned, every student's record of the course and day is the
  -- expected one, no other record has changed, and the unique key still holds.
  pub evaluate_records :
      (s : Session) {updated : List ClassSessionRecord}
      → s.committed ≡ s.working
      → IsKeyed s.working.class_session_records
      → (evaluate_class_attendance q p s).0 ≡ ok updated
      → let before = s.working in
        let after = (evaluate_class_attendance q p s).1.committed in
        ((k : ℕ)
          → find_record k course_id date after.class_session_records
            ≡ expected q k
                (seen q before k)
                (find_record k course_id date before.class_session_records))
        × ((k c d : ℕ)
            → (c == course_id && d == date) ≡ false
            → find_record k c d after.class_session_records
              ≡ find_record k c d before.class_session_records)
        × IsKeyed after.class_session_records
  evaluate_records s fresh keyed e =
      let rows = upsert_rows q s.working in
      let old = s.working.class_session_records in
      rw (after_records s fresh e) (
        (
          λ k. stored_record q s.working k keyed,
          λ k c d other.
              find_record-upsert_all_other course_id date (upsert_row q s.working)
                (row-IsRowOf q s.working) k c d (student_ids q s.working) old other,
          upsert_all-IsKeyed set_verdict set_verdict-KeepsKey rows old keyed,
        ))

  -- If the threshold is positive, the course is there and active and the database takes every
  -- write, the evaluation returns.
  pub evaluate_returns :
      (s : Session) {course : Course}
      → ((d : Db) → p.accepts d ≡ true)
      → ((d : Db) → p.commits d ≡ true)
      → 1 ≤ required_sightings_threshold
      → find_course course_id s.working.courses ≡ some course
      → course.is_active ≡ true
      → (evaluate_class_attendance q p s).0 ≡ ok (returned q (upsert_rows q s.working) s.working)
  unfolding evaluate_class_attendance require_course
  evaluate_returns s takes commits pos found active =
      ground (arith, store_if_any_returns (upsert_rows q s.working) s takes commits)
