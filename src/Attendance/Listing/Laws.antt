-- ===== src/Attendance/Listing/Laws.antt =====
-- The listing against a direct description of each of its rows.
use attendence_v.Prelude.{
  ℕ, ◌≡◌, refl, ap, ◌∙◌, true, ◌&&◌, some, List, [], ◌∷◌, map, filter, length, contains, arith,
}
use attendence_v.Storage.{Db, Session, ok}
use attendence_v.Storage.Models.{Sighting, ClassSessionRecord, Course}
use attendence_v.Attendance.Guards.{find_course, find_student, require_course}
use attendence_v.Attendance.Evaluation.{in_window}
use attendence_v.Attendance.Evaluation.Counts.{is_of, count_of-sighting_counts}
use attendence_v.Attendance.Override.{status_value}
use attendence_v.Attendance.Listing.{
  ListRequest, ClassSessionRosterRecord, is_among, name_of_student, existing_records, listed_counts,
  roster_record, list_response, list_session_records,
}

module _ (q : ListRequest) where
  open q use {course_id, session_date, default_threshold}

  -- The row of a record, with the student's own sightings of the day counted.
  abbrev pub described : Db → ClassSessionRecord → ClassSessionRosterRecord
  described d r = record {
    id = r.id;
    student_id = r.student_id;
    student_full_name = name_of_student d (find_student r.student_id d.students);
    status = status_value r.status;
    sightings_count =
        length
          (filter (is_of r.student_id) (filter (in_window course_id session_date) d.sightings));
    required_sightings_threshold = r.required_sightings_threshold;
    evaluated_at = r.evaluated_at;
  }

  abbrev pub threshold_of : List ClassSessionRecord → ℕ
  threshold_of [] = default_threshold
  threshold_of (r ∷ rs) = r.required_sightings_threshold

  length-is_of-is_among :
      (k : ℕ) (ids : List ℕ) (xs : List Sighting)
      → contains k ids ≡ true
      → length
          (filter (is_of k) (filter (λ g. in_window course_id session_date g && is_among ids g) xs))
        ≡ length (filter (is_of k) (filter (in_window course_id session_date) xs))
  length-is_of-is_among k ids [] h = refl
  length-is_of-is_among k ids (x ∷ xs) h = ground (arith, length-is_of-is_among k ids xs h)

  roster_record_lem :
      (d : Db) (ids : List ℕ) (r : ClassSessionRecord)
      → contains r.student_id ids ≡ true
      → roster_record q d (listed_counts q d ids) r ≡ described d r
  unfolding roster_record listed_counts
  roster_record_lem d ids r h =
      let window = filter (in_window course_id session_date) d.sightings in
      let own = filter (λ g. in_window course_id session_date g && is_among ids g) d.sightings in
      ap (λ n. record (described d r) { sightings_count = n })
        (count_of-sighting_counts r.student_id own
          ∙ length-is_of-is_among r.student_id ids d.sightings h)

  described_all :
      (d : Db) (ids : List ℕ) (rs : List ClassSessionRecord)
      → ((k : ℕ) → contains k (map (λ x. x.student_id) rs) ≡ true → contains k ids ≡ true)
      → map (roster_record q d (listed_counts q d ids)) rs ≡ map (described d) rs
  described_all d ids [] h = refl
  described_all d ids (r ∷ rs) h = λ i.
      roster_record_lem d ids r (h r.student_id (ground arith)) i
      ∷ described_all d ids rs (λ k e. h k (ground (arith, e))) i

  list_response_lem :
      (d : Db) (rs : List ClassSessionRecord)
      → list_response q d rs ≡ record {
        course_id = course_id;
        session_date = session_date;
        required_sightings_threshold = threshold_of rs;
        records = map (described d) rs;
      }
  unfolding list_response
  list_response_lem d [] = refl
  list_response_lem d (r ∷ rs) =
      ap
        (λ xs. record {
          course_id = course_id;
          session_date = session_date;
          required_sightings_threshold = r.required_sightings_threshold;
          records = xs;
        })
        (described_all d (map (λ x. x.student_id) (r ∷ rs)) (r ∷ rs) (λ k e. e))

  -- For an active course the listing returns, changes nothing, and has the stored records of the
  -- day in their order, each with its own status, name and threshold and the number of the
  -- student's sightings in the window of the day; the threshold is the first record's, or the
  -- default.
  pub list_session_records_lem :
      (s : Session) {course : Course}
      → find_course course_id s.working.courses ≡ some course
      → course.is_active ≡ true
      → list_session_records q s ≡ (
        ok (record {
          course_id = course_id;
          session_date = session_date;
          required_sightings_threshold = threshold_of (existing_records q s.working);
          records = map (described s.working) (existing_records q s.working);
        }),
        s,
      )
  unfolding list_session_records require_course
  list_session_records_lem s {course} found active =
      ground (arith, list_response_lem s.working (existing_records q s.working))
