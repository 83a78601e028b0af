-- ===== src/Attendance/Sightings.antt =====
-- `log_sighting`: one heartbeat row is stored, and then published as far as that goes.
pub mod Laws
use text.Mathlib.Text.{◌==◌ as str_eq}
use attendence_v.Prelude.{
  ℕ, String, Bool, true, false, ◌&&◌, not, Option, none, some, List, [], ◌∷◌, ◌++◌, if◌then◌else◌,
}
use attendence_v.Prelude.Double.{Double, leb_double, zero_double, one_double}
use attendence_v.Storage.{
  Db, Session, Platform, Error, Result, ok, raised, Exec, pure, ◌>>=◌, ◌>>◌, raise_if, execute,
  validation,
}
use attendence_v.Storage.Models.{Sighting}
use attendence_v.Crud.{transaction}
use attendence_v.Attendance.Guards.{Datetime, as_utc, require_student, require_course, require_room}

pub record SightingRequest : Type 0 where
  pub student_id : Option ℕ
  pub camera_id : String
  pub course_id : ℕ
  pub timestamp : Datetime
  pub room_id : Option ℕ
  pub confidence_score : Option Double
  pub embedding_reference : Option String
  pub new_id : ℕ

-- `confidence_score is not None and not (0.0 <= confidence_score <= 1.0)`
unfoldable pub is_out_of_range : Option Double → Bool
is_out_of_range none = false
is_out_of_range (some c) = not (leb_double zero_double c && leb_double c one_double)

unfoldable pub require_known : Option ℕ → Exec (Unit {0})
require_known none = pure tt
require_known (some k) = require_student k

module _ (q : SightingRequest) (p : Platform) where
  open q use {
    student_id, camera_id, course_id, timestamp, room_id, confidence_score, embedding_reference,
    new_id,
  }

  abbrev pub sighting_row : Sighting
  sighting_row = record {
    id = new_id;
    student_id = student_id;
    course_id = course_id;
    room_id = room_id;
    timestamp = as_utc timestamp;
    camera_id = p.strip camera_id;
    confidence_score = confidence_score;
    embedding_reference = embedding_reference;
  }

  abbrev pub store_sighting : Db → Db
  store_sighting d = record d { sightings = d.sightings ++ sighting_row ∷ [] }

  -- The body of the write block.
  unfoldable pub write_sighting : Exec Sighting
  write_sighting = do
    require_known student_id
    require_course course_id
    require_room room_id
    execute p store_sighting
    pure sighting_row

  unfoldable pub insert_sighting : Exec Sighting
  insert_sighting = do
    raise_if (str_eq (p.strip camera_id) "") (validation "camera_id must not be blank.")
    raise_if (is_out_of_range confidence_score)
        (validation "confidence_score must be between 0 and 1.")
    transaction p write_sighting

  -- `try: publish … except Exception: log`, after the commit; what `publish` does to the database
  -- session is nothing, and its exception is dropped.
  unfoldable pub published :
      (Sighting → Result (Unit {0})) → Result Sighting × Session → Result Sighting × Session
  published publish (raised x, s) = (raised x, s)
  published publish (ok created, s) = elim (publish created) [
    | ok _ ↦ (ok created, s)
    | raised _ ↦ (ok created, s)
  ]

  unfoldable pub log_sighting : (Sighting → Result (Unit {0})) → Exec Sighting
  unfolding published
  log_sighting publish s = published publish (insert_sighting s)
