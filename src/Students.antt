-- ===== src/Students.antt =====
-- The consent decision of a student: `record_student_consent` of backend/app/api/v1/students.py.
pub mod Decisions
pub mod Profiles
mod Tests
use attendence_v.Prelude.{
  ℕ, Bool, true, false, not, String, Option, none, some, List, [], ◌∷◌, if◌then◌else◌, ◌==◌,
  is_some,
}
use attendence_v.Storage.{
  Db, Session, Platform, Error, Result, ok, raised, http, database, Exec, pure, raise, ◌>>=◌, ◌>>◌,
  query, execute,
}
use attendence_v.Storage.Models.{
  Student, Consent, pending, granted, denied, withdrawn, Json, string, flag,
}
use attendence_v.Audit.{
  GovernanceAction, AuditEvent, emit, consent_grant, consent_denied, consent_withdraw,
}
use attendence_v.Crud.{transaction}
use attendence_v.Attendance.Guards.{find_student}

-- What `StudentConsentUpdate` lets through.
pub data Decision : Type 0 where
  grant deny withdraw : Decision

abbrev pub status_of : Decision → Consent
status_of grant = granted
status_of deny = denied
status_of withdraw = withdrawn

abbrev pub consent_action : Decision → GovernanceAction
consent_action grant = consent_grant
consent_action deny = consent_denied
consent_action withdraw = consent_withdraw

abbrev pub consent_value : Consent → String
consent_value pending = "pending"
consent_value granted = "granted"
consent_value denied = "denied"
consent_value withdrawn = "withdrawn"

pub record ConsentRequest : Type 0 where
  pub student_id : ℕ
  pub decision : Decision
  pub reason : Option String
  pub actor : ℕ
  pub clock : ℕ
  pub request_id : Option ℕ
  pub client_ip : Option String

module _ (q : ConsentRequest) (p : Platform) where
  open q use {student_id, decision, reason, actor, clock, request_id, client_ip}

  abbrev pub decided : Student → Student
  decided student = record student { consent_status = status_of decision; consent_at = some clock }

  unfoldable pub decide : List Student → List Student
  decide [] = []
  decide (student ∷ students) =
      let rest = decide students in
      if student_id == student.id then decided student ∷ rest else student ∷ rest

  abbrev pub store_consent : Db → Db
  store_consent d = record d { students = decide d.students }

  abbrev pub consent_event : Student → Student → AuditEvent
  consent_event previous student = record {
    action = consent_action decision;
    entity_type = "student";
    entity_id = some student.id;
    class_session_record_id = none;
    actor_user_id = some actor;
    reason = reason;
    change_summary =
        ("from", string (consent_value previous.consent_status))
        ∷ ("to", string (consent_value (status_of decision)))
        ∷ ("is_minor", flag (is_some student.date_of_birth))
        ∷ [];
    request_id = request_id;
    ip_address = client_ip;
  }

  -- The block up to its commit; the row that RETURNING gives is the decided one.
  unfoldable pub write_consent : Student → Exec Student
  write_consent previous = do
    execute p store_consent
    emit p (consent_event previous (decided previous))
    pure (decided previous)

  unfoldable pub record_existing : Option Student → Exec Student
  record_existing none = raise (http 404 "Student not found.")
  record_existing (some student) = transaction p (write_consent student)

  unfoldable pub record_student_consent : Exec Student
  record_student_consent = do
    student ← query (λ d. find_student student_id d.students)
    record_existing student
