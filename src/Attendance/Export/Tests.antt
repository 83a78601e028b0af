-- ===== src/Attendance/Export/Tests.antt =====
-- The export after an override of student 5, and after the nightly run.
use attendence_v.Attendance.Export.Listed.{Listed}
use attendence_v.Attendance.Export.Roster.{is_on_roster, export_daily_roster_lem}
use attendence_v.Storage.Models.{User}
use attendence_v.Fixtures.{broken, teacher}
use attendence_v.Attendance.Export.{identity_of, link_identity, export_daily_roster}
use attendence_v.Prelude.{ℕ, true, List, [], ◌∷◌, map, is_some}
use attendence_v.Prelude.{arith, ◌≡◌, refl, none, some, ◌+◌, leb, if◌then◌else◌}
use attendence_v.Prelude.Text.{lstrip, lstrip-blank}
use attendence_v.Prelude.Double.{half_double}
use attendence_v.Fixtures.{plain, class_db, opened}
use attendence_v.Storage.{Platform, Session, ok, execute, flush, commit}
use attendence_v.Storage.Models.{present, absent}
use attendence_v.Audit.{emit}
use attendence_v.Crud.{transaction}
use attendence_v.Attendance.Records.{find_record}
use attendence_v.Attendance.Guards.{require_course, require_student}
use attendence_v.Attendance.Evaluation.{
  EvaluationRequest, evaluate_class_attendance, upsert_rows, returned,
}
use attendence_v.Attendance.Evaluation.Laws.{seen}
use attendence_v.Attendance.Evaluation.Storage.{evaluate_returns}
use attendence_v.Attendance.Override.{
  OverrideRequest, apply_manual_override, write_override, is_overridable, override_row,
  status_value,
}
use attendence_v.Attendance.Export.{ExportRequest, Formats, Identity, export_row}
use attendence_v.Attendance.Export.Overrides.{
  ShowsOverride, override_exported, dropped_override_exported,
}

abbrev trimming : Platform
trimming = record plain { strip = lstrip }

abbrev class : Session
class = opened class_db

abbrev by_hand : OverrideRequest
by_hand = record {
  course_id = 7;
  student_id = 5;
  status = absent;
  reason = "  left early";
  actor = some 1;
  clock = 86400000500;
  new_id = 200;
}

abbrev nightly : EvaluationRequest
nightly = record {
  course_id = 7;
  date = 1;
  required_sightings_threshold = 1;
  evaluated_at = 86400000900;
  actor = none;
  new_id = λ k. k + 100;
}

abbrev of_the_day : ExportRequest
of_the_day = record { course_id = 7; session_date = 1; actor = some 1 }

abbrev formats : Formats
formats = record {
  average = λ scores. half_double;
  four_decimals = λ d. "0.5000";
  iso_moment = λ t. "1970-01-02T00:00:00+00:00";
}

abbrev five : Identity
five = record { id = 5; student_number = "S5"; full_name = "F. Five" }

override_runs :
    (apply_manual_override by_hand trimming class).0 ≡ ok (override_row by_hand trimming, none)
unfolding apply_manual_override write_override transaction is_overridable require_course
    require_student execute emit flush commit find_record
override_runs = refl

override_exported_example :
    ShowsOverride of_the_day trimming formats
      (export_row of_the_day trimming formats
        (apply_manual_override by_hand trimming class).1.committed
        five)
      (status_value absent)
      "left early"
override_exported_example =
    override_exported of_the_day trimming formats by_hand refl refl class five lstrip-blank refl tt
      override_runs refl

abbrev overridden_class : Session
overridden_class = (apply_manual_override by_hand trimming class).1

evaluation_follows :
    (evaluate_class_attendance nightly trimming overridden_class).0
    ≡ ok (returned nightly (upsert_rows nightly overridden_class.working) overridden_class.working)
unfolding apply_manual_override write_override transaction is_overridable require_course
    require_student execute emit flush commit find_record
evaluation_follows =
    evaluate_returns nightly trimming overridden_class (λ d. refl) (λ d. refl) (omega arith) refl
      refl

dropped_override_exported_example :
    ShowsOverride of_the_day trimming formats
      (export_row of_the_day trimming formats
        (evaluate_class_attendance nightly trimming overridden_class).1.committed
        five)
      (status_value (if leb 1 (seen nightly overridden_class.working 5) then present else absent))
      "left early"
dropped_override_exported_example =
    dropped_override_exported of_the_day trimming formats by_hand refl refl nightly class five
      lstrip-blank refl refl refl tt override_runs evaluation_follows refl

-- Student 5 with a name, for the whole roster; nothing reaches the ledger.
abbrev pupil : User
pupil = record teacher { id = 2; email = "f@example.org"; full_name = "F. Five" }

abbrev named_class : Session
named_class = opened (record class_db { users = teacher ∷ pupil ∷ [] })

five_is_known :
    (k : ℕ)
    → is_on_roster of_the_day broken formats named_class.working k ≡ true
    → is_some (identity_of named_class.working k) ≡ true
unfolding identity_of link_identity
five_is_known k h = ground arith

export_daily_roster_example :
    (xs : List Identity) × ((export_daily_roster of_the_day broken formats named_class).0
      ≡ ok (map (export_row of_the_day broken formats named_class.working) xs))
    × Listed named_class.working (is_on_roster of_the_day broken formats named_class.working) xs
export_daily_roster_example =
    export_daily_roster_lem of_the_day broken formats named_class (λ d. refl) refl refl
      five_is_known
