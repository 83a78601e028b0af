-- ===== src/Attendance/Evaluation/Laws.antt =====
-- The evaluation against a description of each student's record after it.
use attendence_v.Prelude.{
  ℕ, ◌≡◌, refl, ◌∙◌, Bool, true, false, ltb, ◌&&◌, ◌||◌, Option, none, some, List, [], ◌∷◌, ◌++◌,
  map, arith, ◌==◌, if◌then◌else◌, lookup, keys, filter, length, contains, contains-append, is_some,
}
use attendence_v.Storage.{Db}
use attendence_v.Storage.Models.{
  ClassSessionRecord, AttendanceStatus, present, absent, late, excused,
}
use attendence_v.Attendance.Records.{has_key, find_record, IsKeyed, merged, upsert, upsert_all}
use attendence_v.Attendance.Records.Upsert.{find_record-upsert, KeepsKey}
use attendence_v.Attendance.Evaluation.{
  EvaluationRequest, in_window, verdict, set_verdict, counts, statuses, student_ids, upsert_row,
  upsert_rows, store_rows,
}
use attendence_v.Attendance.Evaluation.Counts.{
  is_of, count_of-sighting_counts, contains-sorted_ids, contains-keys, statuses_lem, seen_lem,
}

pub set_verdict-KeepsKey : KeepsKey set_verdict
set_verdict-KeepsKey old new = (refl, refl, refl)

-- A statement with one row for each listed student, all of one course and day.
module _ (c d : ℕ) (row : ℕ → ClassSessionRecord) where
  abbrev pub IsRowOf : Type 0
  IsRowOf =
      (k : ℕ) → ((row k).student_id ≡ k) × ((row k).course_id ≡ c) × ((row k).session_date ≡ d)

  find_record-upsert_all :
      IsRowOf
      → (k : ℕ) (ids : List ℕ) (rs : List ClassSessionRecord)
      → find_record k c d (upsert_all set_verdict (map row ids) rs) ≡ (
          if contains k ids
          then some (merged set_verdict (row k) (find_record k c d rs))
          else find_record k c d rs)
  unfolding upsert_all has_key
  find_record-upsert_all h k [] rs = refl
  find_record-upsert_all h k (i ∷ is) rs = ground (
    arith,
    h i,
    h k,
    find_record-upsert set_verdict set_verdict-KeepsKey k c d (row i) rs,
    find_record-upsert_all h k is (upsert set_verdict (row i) rs),
  )

  -- Records of another course or another day are not touched.
  pub find_record-upsert_all_other :
      IsRowOf
      → (k c' d' : ℕ) (ids : List ℕ) (rs : List ClassSessionRecord) → (c' == c && d' == d) ≡ false
      → find_record k c' d' (upsert_all set_verdict (map row ids) rs) ≡ find_record k c' d' rs
  unfolding upsert_all has_key
  find_record-upsert_all_other h k c' d' [] rs e = refl
  find_record-upsert_all_other h k c' d' (i ∷ is) rs e = ground (
    arith,
    h i,
    find_record-upsert set_verdict set_verdict-KeepsKey k c' d' (row i) rs,
    find_record-upsert_all_other h k c' d' is (upsert set_verdict (row i) rs) e,
  )

-- The student's sightings in the window of the day.
abbrev pub seen : EvaluationRequest → Db → ℕ → ℕ
seen q d k = length (filter (is_of k) (filter (in_window q.course_id q.date) d.sightings))

-- What the documentation says of the status: excused stays, else the threshold decides.
abbrev pub is_excused : Option AttendanceStatus → Bool
is_excused (some excused) = true
is_excused previous = false

abbrev pub judged : Option AttendanceStatus → ℕ → ℕ → AttendanceStatus
judged previous n threshold =
    if is_excused previous then excused else if ltb n threshold then absent else present

verdict_lem :
    (previous : Option AttendanceStatus) (n threshold : ℕ)
    → verdict previous n threshold ≡ judged previous n threshold
unfolding verdict
verdict_lem none n threshold = ground arith
verdict_lem (some present) n threshold = ground arith
verdict_lem (some absent) n threshold = ground arith
verdict_lem (some late) n threshold = ground arith
verdict_lem (some excused) n threshold = refl

-- The record of a student after the evaluation, from the number of sightings and the record
-- before it.
abbrev pub expected :
    EvaluationRequest → ℕ → ℕ → Option ClassSessionRecord → Option ClassSessionRecord
expected q k n (some old) = some (record old {
  status = judged (some old.status) n q.required_sightings_threshold;
  sighting_count = n;
  required_sightings_threshold = q.required_sightings_threshold;
  evaluated_at = q.evaluated_at;
})
expected q k n none =
    if n == 0
    then none
    else some (record {
      id = q.new_id k;
      student_id = k;
      course_id = q.course_id;
      session_date = q.date;
      status = judged none n q.required_sightings_threshold;
      sighting_count = n;
      required_sightings_threshold = q.required_sightings_threshold;
      evaluated_at = q.evaluated_at;
      notes = none;
    })

module _ (q : EvaluationRequest) where
  open q use {course_id, date}

  pub row-IsRowOf : (d : Db) → IsRowOf course_id date (upsert_row q d)
  unfolding upsert_row
  row-IsRowOf d k = (refl, refl, refl)

  contains-student_ids :
      (d : Db) (k : ℕ)
      → contains k (student_ids q d)
        ≡ (is_some (lookup k (counts q d)) || is_some (lookup k (statuses q d)))
  contains-student_ids d k =
      contains-sorted_ids k (keys (counts q d) ++ keys (statuses q d))
      ∙ contains-append k (keys (counts q d)) (keys (statuses q d))
      ∙ rw (contains-keys k (counts q d), contains-keys k (statuses q d))

  pub stored_record :
      (d : Db) (k : ℕ)
      → IsKeyed d.class_session_records
      → find_record k course_id date (store_rows q (upsert_rows q d) d).class_session_records
        ≡ expected q k (seen q d k) (find_record k course_id date d.class_session_records)
  unfolding upsert_row
  stored_record d k keyed = ground (
    arith,
    verdict_lem (lookup k (statuses q d)) (seen q d k) q.required_sightings_threshold,
    find_record-upsert_all course_id date (upsert_row q d) (row-IsRowOf d) k (student_ids q d)
        d.class_session_records,
    contains-student_ids d k,
    seen_lem k (filter (in_window course_id date) d.sightings),
    count_of-sighting_counts k (filter (in_window course_id date) d.sightings),
    statuses_lem k course_id date [] d.class_session_records keyed,
  )
