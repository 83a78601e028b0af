-- ===== src/Attendance/Export.antt =====
-- `export_daily_roster`: the rows of one day's roster, and its advisory event.
pub mod Overrides
pub mod Listed
pub mod Roster
mod Tests
use Prim.Native.Nat.{Ordering}
use Prim.Native.String.{compare}
use text.Mathlib.Text.{◌==◌ as str_eq}
use attendence_v.Prelude.{
  ℕ, String, Bool, true, false, ◌&&◌, Option, none, some, List, [], ◌∷◌, ◌++◌, map, filter, length,
  is_some, ltb, if◌then◌else◌, ◌==◌,
}
use attendence_v.Prelude.Double.{Double}
use attendence_v.Prelude.Text.{after_prefix}
use attendence_v.Storage.{Db, Session, Platform, Exec, pure, raise, ◌>>=◌, ◌>>◌, query, key_error}
use attendence_v.Storage.Models.{Student, User, Sighting, ClassSessionRecord, string, number}
use attendence_v.Audit.{AuditEvent, export_roster, emit_with_policy}
use attendence_v.Crud.{transaction}
use attendence_v.Auth.Replies.{find_user}
use attendence_v.Attendance.Guards.{find_student, require_course}
use attendence_v.Attendance.Records.{find_record}
use attendence_v.Attendance.Evaluation.{in_window, sorted_ids}
use attendence_v.Attendance.Evaluation.Counts.{is_of}
use attendence_v.Attendance.Override.{status_value}

pub record AttendanceExportRow : Type 0 where
  pub student_number : String
  pub student_name : String
  pub status : String
  pub confidence_score : String
  pub last_sighting_at : Option String
  pub override_applied : Bool
  pub override_reason : String

pub record ExportRequest : Type 0 where
  pub course_id : ℕ
  pub session_date : ℕ
  pub actor : Option ℕ

-- SQL's `avg`, the texts of a float with four decimals and of a moment.
pub record Formats : Type 0 where
  pub average : List Double → Double
  pub four_decimals : Double → String
  pub iso_moment : ℕ → String

-- A row of the join of students and users.
pub record Identity : Type 0 where
  pub id : ℕ
  pub student_number : String
  pub full_name : String

abbrev pub override_notes_prefix : String
override_notes_prefix = "manual_override:"

unfoldable pub scores : List Sighting → List Double
scores [] = []
scores (sighting ∷ rest) = elim sighting.confidence_score [
  | none ↦ scores rest
  | some score ↦ score ∷ scores rest
]

unfoldable pub last_moment : List Sighting → Option ℕ
last_moment [] = none
last_moment (sighting ∷ rest) = elim (last_moment rest) [
  | none ↦ some sighting.timestamp
  | some t ↦ some (if ltb t sighting.timestamp then sighting.timestamp else t)
]

abbrev pub seen_ids : List Sighting → List ℕ
seen_ids [] = []
seen_ids (sighting ∷ rest) = elim sighting.student_id [
  | none ↦ seen_ids rest
  | some k ↦ k ∷ seen_ids rest
]

-- The text after the prefix, if the notes start with it.
unfoldable pub override_text : Option String → Option String
override_text none = none
override_text (some notes) = after_prefix override_notes_prefix notes

unfoldable pub link_identity : Student → Option User → Option Identity
link_identity student none = none
link_identity student (some user) = some (record {
  id = student.id;
  student_number = student.student_number;
  full_name = user.full_name;
})

-- `identities[sid]`
unfoldable pub identity_of : Db → ℕ → Option Identity
identity_of d k = elim (find_student k d.students) [
  | none ↦ none
  | some student ↦ link_identity student (find_user student.user_id d.users)
]

-- `sorted(student_ids, key=…)` of the identities of distinct students.
unfoldable pub insert_identity : Identity → List Identity → List Identity
insert_identity x [] = x ∷ []
insert_identity x (y ∷ ys) =
    let rest = insert_identity x ys in
    elim (compare x.student_number y.student_number) [
      | Ordering.lt ↦ x ∷ y ∷ ys
      | Ordering.gt ↦ y ∷ rest
      | Ordering.eq ↦ if ltb y.id x.id then y ∷ rest else x ∷ y ∷ ys
    ]

-- A missing identity is a KeyError.
unfoldable pub sorted_identities : Db → List ℕ → Option (List Identity)
sorted_identities d [] = some []
sorted_identities d (k ∷ ks) = elim (sorted_identities d ks) [
  | none ↦ none
  | some rest ↦ elim (identity_of d k) [ none ↦ none | some x ↦ some (insert_identity x rest) ]
]

module _ (q : ExportRequest) (p : Platform) (formats : Formats) where
  open q use {course_id, session_date, actor}

  abbrev pub day_records : Db → List ClassSessionRecord
  day_records d =
      filter (λ r. r.course_id == course_id && r.session_date == session_date)
        d.class_session_records

  abbrev pub day_sightings : Db → List Sighting
  day_sightings d = filter (in_window course_id session_date) d.sightings

  -- `set(records_by_student) | set(sightings_by_student)`
  unfoldable pub roster_ids : Db → List ℕ
  roster_ids d = sorted_ids (map (λ r. r.student_id) (day_records d) ++ seen_ids (day_sightings d))

  abbrev pub status_text : Option ClassSessionRecord → String
  status_text none = "unknown"
  status_text (some r) = status_value r.status

  abbrev pub notes_of : Option ClassSessionRecord → Option String
  notes_of none = none
  notes_of (some r) = r.notes

  abbrev pub confidence_text : List Double → String
  confidence_text [] = ""
  confidence_text (score ∷ rest) = formats.four_decimals (formats.average (score ∷ rest))

  -- `_serialize_datetime`
  abbrev pub moment_text : Option ℕ → Option String
  moment_text none = none
  moment_text (some t) = some (formats.iso_moment t)

  abbrev pub reason_text : Option String → String
  reason_text none = ""
  reason_text (some rest) = p.strip rest

  -- One turn of the loop; the record is that of the key, which is unique.
  unfoldable pub export_row : Db → Identity → AttendanceExportRow
  export_row d x =
      let r = find_record x.id course_id session_date d.class_session_records in
      let mine = filter (is_of x.id) (day_sightings d) in
      record {
        student_number = x.student_number;
        student_name = x.full_name;
        status = status_text r;
        confidence_score = confidence_text (scores mine);
        last_sighting_at = moment_text (last_moment mine);
        override_applied = is_some (override_text (notes_of r));
        override_reason = reason_text (override_text (notes_of r));
      }

  abbrev pub export_event : ℕ → AuditEvent
  export_event rows = record {
    action = export_roster;
    entity_type = "class_session_record";
    entity_id = some course_id;
    class_session_record_id = none;
    actor_user_id = actor;
    reason = none;
    change_summary =
        ("session_date", string (p.iso_date session_date))
        ∷ ("format", string "csv")
        ∷ ("rows", number rows)
        ∷ [];
    request_id = none;
    ip_address = none;
  }

  -- The advisory event, and the rows.
  unfoldable pub deliver : Option (List AttendanceExportRow) → Exec (List AttendanceExportRow)
  deliver none = raise key_error
  deliver (some rows) = do
    transaction p (emit_with_policy p false (export_event (length rows)))
    pure rows

  abbrev pub rows_of : Db → Option (List Identity) → Option (List AttendanceExportRow)
  rows_of d none = none
  rows_of d (some xs) = some (map (export_row d) xs)

  unfoldable pub export_ids : List ℕ → Exec (List AttendanceExportRow)
  export_ids [] = pure []
  export_ids (k ∷ ks) = do
    rows ← query (λ d. rows_of d (sorted_identities d (k ∷ ks)))
    deliver rows

  unfoldable pub export_daily_roster : Exec (List AttendanceExportRow)
  export_daily_roster = do require_course course_id; ids ← query roster_ids; export_ids ids
