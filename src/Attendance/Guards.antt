-- ===== src/Attendance/Guards.antt =====
-- `_require_student`, `_require_course`, `_require_room` and `_as_utc`.
pub mod Active
use attendence_v.Prelude.{ℕ, Option, none, some, List, [], ◌∷◌, not, ◌==◌, if◌then◌else◌}
use attendence_v.Storage.{Exec, pure, raise, ◌>>=◌, query, raise_if, not_found, validation}
use attendence_v.Storage.Models.{Student, Course, Room}

abbrev pub find_student : ℕ → List Student → Option Student
find_student k [] = none
find_student k (r ∷ rs) = if k == r.id then some r else find_student k rs

abbrev pub find_course : ℕ → List Course → Option Course
find_course k [] = none
find_course k (r ∷ rs) = if k == r.id then some r else find_course k rs

abbrev pub find_room : ℕ → List Room → Option Room
find_room k [] = none
find_room k (r ∷ rs) = if k == r.id then some r else find_room k rs

unfoldable pub check_student : Option Student → Exec (Unit {0})
check_student none = raise (not_found "Student does not exist.")
check_student (some student) = raise_if (not student.is_active) (validation "Student is inactive.")

unfoldable pub require_student : ℕ → Exec (Unit {0})
unfolding check_student
require_student k = do student ← query (λ d. find_student k d.students); check_student student

unfoldable pub check_course : Option Course → Exec (Unit {0})
check_course none = raise (not_found "Course does not exist.")
check_course (some course) = raise_if (not course.is_active) (validation "Course is inactive.")

unfoldable pub require_course : ℕ → Exec (Unit {0})
unfolding check_course
require_course k = do course ← query (λ d. find_course k d.courses); check_course course

unfoldable pub check_room : Option Room → Exec (Unit {0})
check_room none = raise (not_found "Room does not exist.")
check_room (some room) = raise_if (not room.is_active) (validation "Room is inactive.")

unfoldable pub require_room : Option ℕ → Exec (Unit {0})
unfolding check_room
require_room none = pure tt
require_room (some k) = do room ← query (λ d. find_room k d.rooms); check_room room

-- A `datetime`: with no zone, or with the moment that it names.
pub data Datetime : Type 0 where
  naive : ℕ → Datetime
  aware : ℕ → Datetime

unfoldable pub as_utc : Datetime → ℕ
as_utc (naive t) = t
as_utc (aware t) = t
