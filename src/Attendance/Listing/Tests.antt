-- ===== src/Attendance/Listing/Tests.antt =====
-- The listing of a class with one record.
use attendence_v.Prelude.{◌≡◌, refl, none, [], ◌∷◌, map}
use attendence_v.Fixtures.{class_db, opened, teacher}
use attendence_v.Storage.{Session, ok}
use attendence_v.Storage.Models.{User, ClassSessionRecord, late}
use attendence_v.Attendance.Listing.{ListRequest, existing_records, list_session_records}
use attendence_v.Attendance.Listing.Laws.{described, threshold_of, list_session_records_lem}

abbrev late_five : ClassSessionRecord
late_five = record {
  id = 40;
  student_id = 5;
  course_id = 7;
  session_date = 1;
  status = late;
  sighting_count = 0;
  required_sightings_threshold = 2;
  evaluated_at = 86400000300;
  notes = none;
}

abbrev pupil : User
pupil = record teacher { id = 2; email = "f@example.org"; full_name = "F. Five" }

abbrev class : Session
class =
    opened
      (record class_db { users = teacher ∷ pupil ∷ []; class_session_records = late_five ∷ [] })

abbrev roster : ListRequest
roster = record { course_id = 7; session_date = 1; default_threshold = 3 }

list_session_records_example : list_session_records roster class ≡ (
  ok (record {
    course_id = 7;
    session_date = 1;
    required_sightings_threshold = threshold_of roster (existing_records roster class.working);
    records = map (described roster class.working) (existing_records roster class.working);
  }),
  class,
)
list_session_records_example = list_session_records_lem roster class refl refl
