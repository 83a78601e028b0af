-- ===== src/Attendance/Override.antt =====
-- `apply_manual_override`: a present or absent verdict by hand, for today's record of one student.
pub mod Laws
use Prim.Native.String.{◌++◌ as text_append}
use text.Mathlib.Text.{◌==◌ as str_eq}
use attendence_v.Prelude.{
  ℕ, ◌/◌, String, Bool, true, false, Option, none, some, List, [], ◌∷◌, not, if◌then◌else◌,
}
use mathlib.Core.Option
use attendence_v.Storage.{
  Db, Session, Platform, Exec, pure, raise, ◌>>=◌, ◌>>◌, query, raise_if, execute, validation,
}
use attendence_v.Storage.Models.{
  AttendanceStatus, present, absent, late, excused, ClassSessionRecord, day, Json, null, string,
}
use attendence_v.Audit.{AuditEvent, override_apply, emit}
use attendence_v.Crud.{transaction}
use attendence_v.Attendance.Guards.{require_course, require_student}
use attendence_v.Attendance.Records.{find_record, Update, merged, upsert}

-- `status in (PRESENT, ABSENT)`
unfoldable pub is_overridable : AttendanceStatus → Bool
is_overridable present = true
is_overridable absent = true
is_overridable status = false

-- `status.value`
unfoldable pub status_value : AttendanceStatus → String
status_value present = "present"
status_value absent = "absent"
status_value late = "late"
status_value excused = "excused"

abbrev pub manual_override_default_threshold : ℕ
manual_override_default_threshold = 3

-- `set_` of the statement: the counts and the identifier of the row in place stay.
abbrev pub set_override : Update
set_override old new = record old {
  status = new.status;
  notes = new.notes;
  evaluated_at = new.evaluated_at;
}

abbrev pub status_or_null : Option AttendanceStatus → Json
status_or_null none = null
status_or_null (some status) = string (status_value status)

pub record OverrideRequest : Type 0 where
  pub course_id : ℕ
  pub student_id : ℕ
  pub status : AttendanceStatus
  pub reason : String
  pub actor : Option ℕ
  -- `datetime.now(tz=UTC)`, and the identifier of an inserted row.
  pub clock : ℕ
  pub new_id : ℕ

module _ (q : OverrideRequest) (p : Platform) where
  open q use {course_id, student_id, status, reason, actor, clock, new_id}

  -- `datetime.now(tz=UTC).date()`
  abbrev pub today : ℕ
  today = clock / day

  abbrev pub override_row : ClassSessionRecord
  override_row = record {
    id = new_id;
    student_id = student_id;
    course_id = course_id;
    session_date = today;
    status = status;
    sighting_count = 0;
    required_sightings_threshold = manual_override_default_threshold;
    evaluated_at = clock;
    notes = some (text_append "manual_override: " (p.strip reason));
  }

  abbrev pub previous_record : Db → Option ClassSessionRecord
  previous_record d = find_record student_id course_id today d.class_session_records

  abbrev pub previous_status : Db → Option AttendanceStatus
  previous_status d = Option.map (λ r. r.status) (previous_record d)

  -- `RETURNING`
  abbrev pub overridden_record : Db → ClassSessionRecord
  overridden_record d = merged set_override override_row (previous_record d)

  abbrev pub store_override : Db → Db
  store_override d = record d {
    class_session_records = upsert set_override override_row d.class_session_records;
  }

  abbrev pub override_event : ClassSessionRecord → Option AttendanceStatus → AuditEvent
  override_event r previous = record {
    action = override_apply;
    entity_type = "class_session_record";
    entity_id = some r.id;
    class_session_record_id = some r.id;
    actor_user_id = actor;
    reason = some (p.strip reason);
    change_summary =
        ("student_id", string (p.uuid_text student_id))
        ∷ ("session_date", string (p.iso_date today))
        ∷ ("from", status_or_null previous)
        ∷ ("to", string (status_value status))
        ∷ [];
    request_id = none;
    ip_address = none;
  }

  -- The body of the write block.
  unfoldable pub write_override : Exec (ClassSessionRecord × Option AttendanceStatus)
  write_override = do
    previous ← query previous_status
    r ← query overridden_record
    execute p store_override
    emit p (override_event r previous)
    pure (r, previous)

  unfoldable pub apply_manual_override : Exec (ClassSessionRecord × Option AttendanceStatus)
  apply_manual_override = do
    raise_if (not (is_overridable status))
        (validation "Manual overrides accept only 'present' or 'absent'.")
    raise_if (str_eq (p.strip reason) "") (validation "An override reason is required.")
    require_course course_id
    require_student student_id
    transaction p write_override
