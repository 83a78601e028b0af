-- ===== src/Students/Profiles/Writes.antt =====
-- A write to a student's profile and its evidence.
use attendence_v.Prelude.{
  ℕ, ◌≡◌, refl, sym, ◌∙◌, Bool, false, String, Option, none, some, List, [], ◌∷◌, arith, Bool-cases,
  inl, inr,
}
use attendence_v.Storage.{Db, Session, Platform, Result, ok, raised, http, ◌>>◌, resume}
use attendence_v.Storage.Models.{Student, User}
use attendence_v.Audit.{add_governance, log_row}
use attendence_v.Crud.{
  row, deleted, factory, queue_audit_event, create, patched, patch_table, remove_rows, insert_table,
  find, on_session,
}
use attendence_v.Crud.Requests.{
  Replies, handled-Replies, delete_reply-Replies, create_request-Replies, update_request-Replies,
  delete_request-Replies,
}
use attendence_v.Crud.Payloads.{Values, names, setters, handled, handle}
use attendence_v.Attendance.Guards.{find_student}
use attendence_v.Auth.Replies.{find_user}
use attendence_v.Students.Profiles.{
  students_table, check_linked_user, validate_linked_user, student_create_event, create_student,
  student_update_event, update_student, student_delete_event, delete_existing, delete_student,
  create_error, create_student_route, update_error, or_not_found, update_student_route,
  delete_student_route,
}

module _ (p : Platform) (actor : Option ℕ) (violated : Bool) where
  -- The database with a new profile and its row of evidence.
  abbrev pub with_student : Student → Db → Db
  with_student payload d =
      add_governance (log_row p (student_create_event p actor payload (row payload)))
        (insert_table p students_table payload d)

  linked-Replies :
      (payload : Student) (s : Session)
      → s.committed ≡ s.working
      → (o : Option User)
      → Replies s payload (with_student payload s.working) (
          handled (create_error p actor violated) (
            (check_linked_user p actor o
                >> on_session (λ v.
                  create p students_table payload
                    (queue_audit_event (factory (student_create_event p actor payload)) v)))
              s))
  unfolding check_linked_user handled
  linked-Replies payload s fresh none = (refl, sym fresh)
  linked-Replies payload s fresh (some user) = elim (Bool-cases user.is_active) [
    | inr inactive ↦ simp inactive (refl, sym fresh)
    | inl active ↦ simp active (
        handled-Replies (create_error p actor violated) s payload (with_student payload s.working)
          (on_session
            (λ v.
              create p students_table payload
                (queue_audit_event (factory (student_create_event p actor payload)) v))
            s)
          (create_request-Replies p students_table (student_create_event p actor payload) s
            payload))
  ]

  -- A creation commits the profile together with its ledger row and returns it, or changes nothing;
  -- it is answered 400 if the user of the profile does not exist or is inactive.
  pub create_student_route-Replies :
      (payload : Student) (s : Session)
      → s.committed ≡ s.working
      → Replies s payload
          (with_student payload s.working)
          (create_student_route p actor violated payload s)
        × (find_user payload.user_id s.working.users ≡ none
            → create_student_route p actor violated payload s
              ≡ (raised (http 400 "Linked user does not exist."), s))
        × ((user : User)
            → find_user payload.user_id s.working.users ≡ some user
            → user.is_active ≡ false
            → create_student_route p actor violated payload s
              ≡ (raised (http 400 "Linked user is inactive."), s))
  unfolding create_student_route handle create_student validate_linked_user check_linked_user
      create_error
  create_student_route-Replies payload s fresh = (
    linked-Replies payload s fresh (find_user payload.user_id s.working.users),
    λ missing. rw missing refl,
    λ user found inactive. rw (found, inactive) refl,
  )

  find-students_table :
      (k : ℕ) (students : List Student) → find p students_table k students ≡ find_student k students
  find-students_table k [] = refl
  find-students_table k (student ∷ students) = ground (arith, find-students_table k students)

  or_not_found-Replies :
      (s : Session) (a : Student) (done : Db) (o : Result (Option Student) × Session)
      → Replies s (some a) done o
      → Replies s a done (resume (or_not_found p actor violated) o)
  unfolding or_not_found
  or_not_found-Replies s a done (ok none, s') h = absurd (ground (arith, h.0))
  or_not_found-Replies s a done (ok (some b), s') h = (ground (arith, h.0), h.1, h.2)
  or_not_found-Replies s a done (raised x, s') h = h

  -- A patch of a profile that is there commits the patched profile together with the ledger row
  -- that names the fields, sorted, and returns it, or changes nothing.
  update_student_route-Replies :
      (k : ℕ) (field : String) (g : Student → Student) (values : Values Student) (student : Student)
      (s : Session)
      → find_student k s.working.students ≡ some student
      → let changes = (field, g) ∷ values in
        let new = patched p students_table (setters changes) student in
        Replies s new
          (add_governance
            (log_row p (student_update_event p actor k (names changes) (row new)))
            (patch_table p students_table k (setters changes) s.working))
          (update_student_route p actor violated k changes s)
  unfolding update_student_route handle update_student
  update_student_route-Replies k field g values student s found = or_not_found-Replies s _ _ _ (
      handled-Replies (update_error p actor violated) s _ _ _ (
        update_request-Replies p students_table
          (student_update_event p actor k (names ((field, g) ∷ values))) s k g (setters values)
          student (find-students_table k s.working.students ∙ found)))

  -- A deletion of a profile that is there commits the deletion together with the ledger row that
  -- keeps whether the student was active, or changes nothing; without the profile it is answered 404.
  delete_student_route-Replies :
      (k : ℕ) (s : Session)
      → ((student : Student)
          → find_student k s.working.students ≡ some student
          → Replies s tt
              (add_governance
                (log_row p (student_delete_event p actor student (deleted k)))
                (remove_rows p students_table k s.working))
              (delete_student_route p actor violated k s))
        × (find_student k s.working.students ≡ none
            → delete_student_route p actor violated k s
              ≡ (raised (http 404 "Student not found."), s))
  unfolding delete_student_route delete_student delete_existing
  delete_student_route-Replies k s = (
    λ student found. rw found (
        delete_reply-Replies "Student not found." s _ _ (
          delete_request-Replies p students_table (student_delete_event p actor student) s k student
            (find-students_table k s.working.students ∙ found))),
    λ missing. rw missing refl,
  )
