-- ===== src/Students/Profiles.antt =====
-- backend/app/services/student_service.py, and the routes of students.py that call it.
pub mod Writes
use Prim.Native.Nat.{Ordering}
use Prim.Native.String.{compare}
use mathlib.Core.Option
use attendence_v.Prelude.{
  ℕ, String, Bool, true, false, not, ◌&&◌, Option, none, some, List, [], ◌∷◌, map, if◌then◌else◌,
  ◌==◌,
}
use attendence_v.Prelude.Double.{ℤ}
use attendence_v.Storage.{
  Db, Session, Platform, Error, Result, ok, raised, database, student_link, http, Exec, pure, raise,
  ◌>>=◌, ◌>>◌, query, raise_if,
}
use attendence_v.Storage.Models.{Student, User, Json, string, strings, number, flag}
use attendence_v.Audit.{
  AuditEvent, GovernanceAction, student_create, student_update, student_delete,
}
use attendence_v.Crud.{
  Table, Service, Written, row, deleted, factory, on_session, queue_audit_event, create, update,
  delete, list,
}
use attendence_v.Crud.Payloads.{
  Values, names, setters, sorted_texts, written_id, service_event, handle,
}
use attendence_v.Attendance.Guards.{find_student}
use attendence_v.Auth.Replies.{find_user}

abbrev pub students_table : Table Student
students_table = record {
  rows = λ d. d.students;
  replace = λ students d. record d { students = students };
  id = λ student. student.id;
}

module _ (p : Platform) (actor : Option ℕ) where
  unfoldable pub check_linked_user : Option User → Exec (Unit {0})
  check_linked_user none = raise (student_link "Linked user does not exist.")
  check_linked_user (some user) =
      raise_if (not user.is_active) (student_link "Linked user is inactive.")

  unfoldable pub validate_linked_user : ℕ → Exec (Unit {0})
  validate_linked_user user_id = do
    user ← query (λ d. find_user user_id d.users)
    check_linked_user user

  abbrev pub student_create_event : Student → Written Student → AuditEvent
  student_create_event payload created =
      service_event student_create "student" (written_id students_table created) actor (
        ("student_number", string payload.student_number)
        ∷ ("enrollment_year", number payload.enrollment_year)
        ∷ [])

  -- `create_student`; the payload is the row with its generated identifier.
  unfoldable pub create_student : Student → Exec Student
  create_student payload = do
    validate_linked_user payload.user_id
    on_session (λ v.
        create p students_table payload
          (queue_audit_event (factory (student_create_event payload)) v))

  abbrev pub student_update_event : ℕ → List String → Written Student → AuditEvent
  student_update_event k fields _ =
      service_event student_update "student" k actor
        (("fields_changed", strings (sorted_texts fields)) ∷ [])

  unfoldable pub update_student : ℕ → Values Student → Exec (Option Student)
  update_student k values = on_session (λ v.
      update p students_table k (setters values)
        (queue_audit_event (factory (student_update_event k (names values))) v))

  abbrev pub student_delete_event : Student → Written Student → AuditEvent
  student_delete_event student _ =
      service_event student_delete "student" student.id actor
        (("was_active", flag student.is_active) ∷ [])

  unfoldable pub delete_existing : ℕ → Option Student → Exec Bool
  delete_existing k none = pure false
  delete_existing k (some student) = on_session (λ v.
      delete p students_table k (queue_audit_event (factory (student_delete_event student)) v))

  unfoldable pub delete_student : ℕ → Exec Bool
  delete_student k = do student ← query (λ d. find_student k d.students); delete_existing k student

  module _ (violated : Bool) where
    unfoldable pub create_error : Error → Error
    create_error (student_link detail) = http 400 detail
    create_error database =
        if violated then http 409 "The student_number or user mapping already exists." else database
    create_error x = x

    unfoldable pub create_student_route : Student → Exec Student
    create_student_route payload = handle create_error (create_student payload)

    unfoldable pub update_error : Error → Error
    update_error database =
        if violated
        then http 409 "The requested student update conflicts with an existing record."
        else database
    update_error x = x

    unfoldable pub or_not_found : Option Student → Exec Student
    or_not_found none = raise (http 404 "Student not found.")
    or_not_found (some student) = pure student

    unfoldable pub update_student_route : ℕ → Values Student → Exec Student
    update_student_route k values = do
      updated ← handle update_error (update_student k values)
      or_not_found updated

    -- An IntegrityError of a deletion is not handled.
    unfoldable pub delete_student_route : ℕ → Exec (Unit {0})
    delete_student_route k = do
      was_deleted ← delete_student k
      raise_if (not was_deleted) (http 404 "Student not found.")
