-- ===== src/Attendance/Listing.antt =====
-- `list_session_records`: the roster of a course and day as it is stored.
pub mod Laws
mod Tests
use attendence_v.Prelude.{
  ℕ, String, Bool, false, ◌&&◌, Option, none, some, List, [], ◌∷◌, map, filter, contains, ◌==◌,
  if◌then◌else◌,
}
use attendence_v.Storage.{Db, Exec, pure, ◌>>=◌, ◌>>◌, query}
use attendence_v.Storage.Models.{Student, User, Sighting, ClassSessionRecord}
use attendence_v.Auth.Replies.{find_user}
use attendence_v.Attendance.Guards.{find_student, require_course}
use attendence_v.Attendance.Evaluation.{in_window, sighting_counts, count_of}
use attendence_v.Attendance.Override.{status_value}

pub record ClassSessionRosterRecord : Type 0 where
  pub id : ℕ
  pub student_id : ℕ
  pub student_full_name : String
  pub status : String
  pub sightings_count : ℕ
  pub required_sightings_threshold : ℕ
  pub evaluated_at : ℕ

pub record ClassSessionListResponse : Type 0 where
  pub course_id : ℕ
  pub session_date : ℕ
  pub required_sightings_threshold : ℕ
  pub records : List ClassSessionRosterRecord

pub record ListRequest : Type 0 where
  pub course_id : ℕ
  pub session_date : ℕ
  pub default_threshold : ℕ

-- `student_id IN (…)`
abbrev pub is_among : List ℕ → Sighting → Bool
is_among ids sighting = elim sighting.student_id [ none ↦ false | some k ↦ contains k ids ]

-- `user_full_names.get(user_id, "")`
abbrev pub name_of_user : Option User → String
name_of_user none = ""
name_of_user (some user) = user.full_name

abbrev pub name_of_student : Db → Option Student → String
name_of_student d none = ""
name_of_student d (some student) = name_of_user (find_user student.user_id d.users)

module _ (q : ListRequest) where
  open q use {course_id, session_date, default_threshold}

  abbrev pub existing_records : Db → List ClassSessionRecord
  existing_records d =
      filter (λ r. r.course_id == course_id && r.session_date == session_date)
        d.class_session_records

  -- The dict of the counts of the listed students.
  unfoldable pub listed_counts : Db → List ℕ → List (ℕ × ℕ)
  listed_counts d ids =
      sighting_counts
        (filter (λ g. in_window course_id session_date g && is_among ids g) d.sightings)

  -- One turn of the loop.
  unfoldable pub roster_record : Db → List (ℕ × ℕ) → ClassSessionRecord → ClassSessionRosterRecord
  roster_record d counts r = record {
    id = r.id;
    student_id = r.student_id;
    student_full_name = name_of_student d (find_student r.student_id d.students);
    status = status_value r.status;
    sightings_count = count_of r.student_id counts;
    required_sightings_threshold = r.required_sightings_threshold;
    evaluated_at = r.evaluated_at;
  }

  unfoldable pub list_response : Db → List ClassSessionRecord → ClassSessionListResponse
  list_response d [] = record {
    course_id = course_id;
    session_date = session_date;
    required_sightings_threshold = default_threshold;
    records = [];
  }
  list_response d (r ∷ rs) =
      let counts = listed_counts d (map (λ x. x.student_id) (r ∷ rs)) in
      record {
        course_id = course_id;
        session_date = session_date;
        required_sightings_threshold = r.required_sightings_threshold;
        records = map (roster_record d counts) (r ∷ rs);
      }

  unfoldable pub list_session_records : Exec ClassSessionListResponse
  list_session_records = do
    require_course course_id
    query (λ d. list_response d (existing_records d))
