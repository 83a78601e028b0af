-- ===== src/Attendance/Tests.antt =====
-- Runs of the attendance service, and the theorems at a class of one student.
use attendence_v.Prelude.{ℕ, ◌≡◌, refl, true, false, ◌&&◌, none, some, [], ◌∷◌, ◌+◌, arith, ◌==◌}
use text.Mathlib.Text.{◌==◌ as str_eq}
use attendence_v.Fixtures.{plain, broken, class_db, opened, seen_once}
use attendence_v.Storage.{database, Session, ok, raised, execute, flush, commit}
use attendence_v.Storage.Models.{absent}
use attendence_v.Prelude.Double.{half_double}
use attendence_v.Audit.{emit}
use attendence_v.Crud.{transaction}
use attendence_v.Crud.Blocks.{Settled}
use attendence_v.Attendance.Records.{find_record, IsKeyed}
use attendence_v.Attendance.Guards.Active.{IsActiveCourse, IsActiveStudent}
use attendence_v.Attendance.Guards.{naive, require_course, require_student, require_room}
use attendence_v.Attendance.Evaluation.{
  EvaluationRequest, evaluate_class_attendance, upsert_rows, returned,
}
use attendence_v.Attendance.Evaluation.Laws.{seen, expected}
use attendence_v.Attendance.Evaluation.Storage.{
  evaluated, evaluate-Settled, evaluate_records, evaluate_returns,
}
use attendence_v.Attendance.Override.{
  OverrideRequest, apply_manual_override, write_override, is_overridable, override_row,
}
use attendence_v.Attendance.Override.Laws.{
  overridden, corrected, override-Settled, override_records,
}
use attendence_v.Attendance.Sightings.{SightingRequest, log_sighting, sighting_row, insert_sighting}
use attendence_v.Attendance.Sightings.{
  write_sighting, require_known, is_out_of_range, insert_sighting,
}
use attendence_v.Attendance.Sightings.Laws.{IsInRange, IsLogged, log_sighting_row}

abbrev class : Session
class = opened class_db

abbrev nightly : EvaluationRequest
nightly = record {
  course_id = 7;
  date = 1;
  required_sightings_threshold = 1;
  evaluated_at = 86400000900;
  actor = none;
  new_id = λ k. k + 100;
}

evaluate-Settled_example :
    Settled class
      (λ _. evaluated nightly broken (upsert_rows nightly class_db) class_db)
      (evaluate_class_attendance nightly broken class)
evaluate-Settled_example = evaluate-Settled nightly broken class refl

evaluation_runs :
    (evaluate_class_attendance nightly plain class).0
    ≡ ok (returned nightly (upsert_rows nightly class_db) class_db)
evaluation_runs =
    evaluate_returns nightly plain class (λ d. refl) (λ d. refl) (omega arith) refl refl

evaluate_records_example :
    let after = (evaluate_class_attendance nightly plain class).1.committed in
    ((k : ℕ)
      → find_record k 7 1 after.class_session_records
        ≡ expected nightly k (seen nightly class_db k) (find_record k 7 1 []))
    × ((k c d : ℕ)
        → (c == 7 && d == 1) ≡ false
        → find_record k c d after.class_session_records ≡ find_record k c d [])
    × IsKeyed after.class_session_records
evaluate_records_example = evaluate_records nightly plain class refl tt evaluation_runs

abbrev by_hand : OverrideRequest
by_hand = record {
  course_id = 7;
  student_id = 5;
  status = absent;
  reason = "left early";
  actor = some 1;
  clock = 86400000500;
  new_id = 200;
}

override-Settled_example :
    Settled class
      (λ _. overridden by_hand plain class_db)
      (apply_manual_override by_hand plain class)
override-Settled_example = override-Settled by_hand plain class refl

-- The override of an unseen day creates the record.
override_runs :
    (apply_manual_override by_hand plain class).0 ≡ ok (override_row by_hand plain, none)
unfolding apply_manual_override write_override transaction is_overridable require_course
    require_student execute emit flush commit find_record
override_runs = refl

override_records_example :
    let after = (apply_manual_override by_hand plain class).1.committed.class_session_records in
    (is_overridable absent ≡ true)
    × (str_eq "left early" "" ≡ false)
    × (IsActiveCourse 7 class_db × IsActiveStudent 5 class_db)
    × (find_record 5 7 1 after ≡ some (override_row by_hand plain))
    × (override_row by_hand plain ≡ corrected by_hand plain (find_record 5 7 1 []))
    × ((k c d : ℕ)
        → (k == 5 && c == 7 && d == 1) ≡ false
        → find_record k c d after ≡ find_record k c d [])
    × IsKeyed after
override_records_example = override_records by_hand plain class refl tt override_runs

abbrev heartbeat : SightingRequest
heartbeat = record {
  student_id = some 5;
  camera_id = "cam";
  course_id = 7;
  timestamp = naive 86400000200;
  room_id = none;
  confidence_score = some half_double;
  embedding_reference = none;
  new_id = 31;
}

log_sighting_row_example :
    ((log_sighting heartbeat plain (λ _. raised database) class).1.committed
      ≡ record class_db { sightings = seen_once ∷ sighting_row heartbeat plain ∷ [] })
    × (str_eq "cam" "" ≡ false)
    × IsInRange (some half_double)
    × IsLogged heartbeat plain class (sighting_row heartbeat plain)
unfolding log_sighting insert_sighting write_sighting require_known is_out_of_range transaction
    require_course require_student require_room execute commit
log_sighting_row_example = log_sighting_row heartbeat plain (λ _. raised database) class refl refl
