-- ===== src/Students/Decisions.antt =====
-- A consent decision never lands without its evidence.
use attendence_v.Prelude.{ℕ, ◌≡◌, refl, none, some, List, [], ◌∷◌, arith, ◌==◌, if◌then◌else◌}
use mathlib.Core.Option
use attendence_v.Storage.{Db, Session, Platform, ok, raised, http, execute, flush}
use attendence_v.Storage.Atomic.{Quiet, quiet_rules}
use attendence_v.Storage.Models.{Student}
use attendence_v.Audit.{add_governance, log_row, emit}
use attendence_v.Audit.Policy.{Quiet-emit}
use attendence_v.Crud.Blocks.{Settled, transaction-Settled}
use attendence_v.Attendance.Guards.{find_student}
use attendence_v.Students.{
  ConsentRequest, decided, decide, store_consent, consent_event, write_consent, record_existing,
  record_student_consent,
}

module _ (q : ConsentRequest) (p : Platform) where
  open q use {student_id}

  -- The database after the decision: the student's row, and its row of evidence.
  abbrev pub consented : Student → Db → Db
  consented student d =
      add_governance (log_row p (consent_event q p student (decided q p student)))
        (store_consent q p d)

  Quiet-write_consent : (student : Student) → Quiet (write_consent q p student)
  unfolding write_consent
  Quiet-write_consent student = search (quiet_rules, Quiet-emit)

  write_consent-working :
      (student : Student) (s : Session) (a : Student)
      → (write_consent q p student s).0 ≡ ok a
      → (write_consent q p student s).1.working ≡ consented student s.working
  unfolding write_consent execute emit flush
  write_consent-working student s a h = ground arith

  find_student-decide :
      (k : ℕ) (students : List Student)
      → find_student k (decide q p students) ≡ (
          if k == student_id
          then Option.map (decided q p) (find_student k students)
          else find_student k students)
  unfolding decide
  find_student-decide k [] = ground arith
  find_student-decide k (student ∷ students) = ground (arith, find_student-decide k students)

  -- For a student that exists the decision raises and changes nothing, or it commits the student's
  -- new status and moment together with the ledger row; without the student it is answered 404
  -- and nothing changes. The new status is that student's alone.
  pub consent-Settled :
      (s : Session) (k : ℕ)
      → s.committed ≡ s.working
      → ((student : Student)
          → find_student student_id s.working.students ≡ some student
          → Settled s (λ _. consented student s.working) (record_student_consent q p s))
        × (find_student student_id s.working.students ≡ none
            → record_student_consent q p s ≡ (raised (http 404 "Student not found."), s))
        × (find_student k (store_consent q p s.working).students ≡ (
            if k == student_id
            then Option.map (decided q p) (find_student k s.working.students)
            else find_student k s.working.students))
  unfolding record_student_consent record_existing
  consent-Settled s k fresh = (
    λ student found. rw found (
        transaction-Settled p (write_consent q p student) s (λ _. consented student s.working)
          (Quiet-write_consent student) (write_consent-working student s)),
    λ missing. rw missing refl,
    find_student-decide k s.working.students,
  )
