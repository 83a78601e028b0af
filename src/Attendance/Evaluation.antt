-- ===== src/Attendance/Evaluation.antt =====
-- `evaluate_class_attendance`: one day's sightings of a course become its attendance records.
pub mod Counts
pub mod Laws
pub mod Storage
use attendence_v.Prelude.{
  ℕ, ◌+◌, ◌*◌, String, Bool, true, false, ◌&&◌, Option, none, some, List, [], ◌∷◌, ◌++◌, ltb, leb,
  ◌==◌, if◌then◌else◌, lookup, insert, keys, filter, length, map, is_some,
}
use attendence_v.Storage.{
  Db, Session, Platform, Exec, pure, raise, ◌>>=◌, ◌>>◌, query, raise_if, execute, validation,
}
use attendence_v.Storage.Models.{
  AttendanceStatus, present, absent, late, excused, Sighting, ClassSessionRecord, day, string,
  number,
}
use attendence_v.Audit.{AuditEvent, attendance_evaluate, emit}
use attendence_v.Crud.{transaction}
use attendence_v.Attendance.Guards.{require_course}
use attendence_v.Attendance.Records.{find_record, Update, merged, upsert_all}

abbrev pub window_start : ℕ → ℕ
window_start date = date * day

-- The WHERE clause on sightings, for a course and a date.
unfoldable pub in_window : ℕ → ℕ → Sighting → Bool
in_window course date sighting =
    sighting.course_id == course
    && leb (window_start date) sighting.timestamp
    && ltb sighting.timestamp (window_start date + day)
    && is_some sighting.student_id

-- `sighting_counts.get(student_id, 0)`
abbrev pub count_of : ℕ → List (ℕ × ℕ) → ℕ
count_of k counts = elim (lookup k counts) [ none ↦ 0 | some n ↦ n ]

abbrev pub bump : Option ℕ → List (ℕ × ℕ) → List (ℕ × ℕ)
bump none counts = counts
bump (some k) counts = insert k (count_of k counts + 1) counts

-- `SELECT student_id, count(id) … GROUP BY student_id`, as the dict `sighting_counts`.
unfoldable pub sighting_counts : List Sighting → List (ℕ × ℕ)
sighting_counts [] = []
sighting_counts (sighting ∷ rest) = bump sighting.student_id (sighting_counts rest)

-- The dict `existing_statuses`, in the order of the rows.
unfoldable pub existing_statuses :
    List (ℕ × AttendanceStatus) → List ClassSessionRecord → List (ℕ × AttendanceStatus)
existing_statuses acc [] = acc
existing_statuses acc (r ∷ rs) = existing_statuses (insert r.student_id r.status acc) rs

-- `sorted(set(…), key=str)`
unfoldable pub insert_sorted : ℕ → List ℕ → List ℕ
insert_sorted k [] = k ∷ []
insert_sorted k (j ∷ js) =
    let rest = insert_sorted k js in
    if k == j then j ∷ js else if ltb k j then k ∷ j ∷ js else j ∷ rest

unfoldable pub sorted_ids : List ℕ → List ℕ
unfolding insert_sorted
sorted_ids [] = []
sorted_ids (k ∷ ks) = insert_sorted k (sorted_ids ks)

-- The branches on one student; `previous` is `existing_statuses.get(student_id)`.
unfoldable pub verdict : Option AttendanceStatus → ℕ → ℕ → AttendanceStatus
verdict (some excused) count threshold = excused
verdict previous count threshold = if leb threshold count then present else absent

-- `set_` of the statement: the identifier and the notes of the row in place stay.
abbrev pub set_verdict : Update
set_verdict old new = record old {
  status = new.status;
  sighting_count = new.sighting_count;
  required_sightings_threshold = new.required_sightings_threshold;
  evaluated_at = new.evaluated_at;
}

pub record EvaluationRequest : Type 0 where
  pub course_id : ℕ
  pub date : ℕ
  pub required_sightings_threshold : ℕ
  pub evaluated_at : ℕ
  pub actor : Option ℕ
  -- The identifiers that the database gives to inserted rows, by student.
  pub new_id : ℕ → ℕ

module _ (q : EvaluationRequest) where
  open q use {course_id, date, required_sightings_threshold, evaluated_at, actor, new_id}

  abbrev pub counts : Db → List (ℕ × ℕ)
  counts d = sighting_counts (filter (in_window course_id date) d.sightings)

  abbrev pub statuses : Db → List (ℕ × AttendanceStatus)
  statuses d =
      existing_statuses []
        (filter (λ r. r.course_id == course_id && r.session_date == date) d.class_session_records)

  abbrev pub student_ids : Db → List ℕ
  student_ids d = sorted_ids (keys (counts d) ++ keys (statuses d))

  unfoldable pub upsert_row : Db → ℕ → ClassSessionRecord
  upsert_row d student = record {
    id = new_id student;
    student_id = student;
    course_id = course_id;
    session_date = date;
    status =
        verdict (lookup student (statuses d)) (count_of student (counts d))
          required_sightings_threshold;
    sighting_count = count_of student (counts d);
    required_sightings_threshold = required_sightings_threshold;
    evaluated_at = evaluated_at;
    notes = none;
  }

  abbrev pub upsert_rows : Db → List ClassSessionRecord
  upsert_rows d = map (upsert_row d) (student_ids d)

  abbrev pub store_rows : List ClassSessionRecord → Db → Db
  store_rows rows d = record d {
    class_session_records = upsert_all set_verdict rows d.class_session_records;
  }

  -- `RETURNING`: the rows under the keys of the statement.
  abbrev pub returned : List ClassSessionRecord → Db → List ClassSessionRecord
  returned [] d = []
  returned (new ∷ news) d =
      merged set_verdict new
        (find_record new.student_id new.course_id new.session_date d.class_session_records)
      ∷ returned news d

  module _ (p : Platform) where
    abbrev pub evaluation_event : ℕ → AuditEvent
    evaluation_event upserted = record {
      action = attendance_evaluate;
      entity_type = "class_session_record";
      entity_id = some course_id;
      class_session_record_id = none;
      actor_user_id = actor;
      reason = none;
      change_summary =
          ("source", string "celery")
          ∷ ("session_date", string (p.iso_date date))
          ∷ ("records_upserted", number upserted)
          ∷ ("threshold", number required_sightings_threshold)
          ∷ [];
      request_id = none;
      ip_address = none;
    }

    -- The body of the write block.
    unfoldable pub store_evaluation : List ClassSessionRecord → Exec (List ClassSessionRecord)
    store_evaluation rows = do
      updated ← query (returned rows)
      execute p (store_rows rows)
      emit p (evaluation_event (length updated))
      pure updated

    unfoldable pub store_if_any : List ClassSessionRecord → Exec (List ClassSessionRecord)
    unfolding store_evaluation
    store_if_any [] = pure []
    store_if_any (r ∷ rs) = transaction p (store_evaluation (r ∷ rs))

    unfoldable pub evaluate_class_attendance : Exec (List ClassSessionRecord)
    unfolding store_if_any
    evaluate_class_attendance = do
      raise_if (ltb required_sightings_threshold 1)
          (validation "required_sightings_threshold must be at least 1.")
      require_course course_id
      rows ← query upsert_rows
      store_if_any rows
