-- ===== src/Attendance/Guards/Active.antt =====
-- What the guards of the attendance service have checked where they return.
use attendence_v.Prelude.{ℕ, ◌≡◌, refl, true, Option, none, some, arith}
use attendence_v.Storage.{Db, Session, Result, ok, raised}
use attendence_v.Storage.Models.{Student, Course, Room}
use attendence_v.Attendance.Guards.{
  require_student, require_course, require_room, find_student, find_course, find_room,
}

abbrev pub IsActiveStudent : ℕ → Db → Type 0
IsActiveStudent k d = (r : Student) × (find_student k d.students ≡ some r) × (r.is_active ≡ true)

abbrev pub IsActiveIfKnown : Option ℕ → Db → Type 0
IsActiveIfKnown none d = Unit
IsActiveIfKnown (some k) d = IsActiveStudent k d

abbrev pub IsActiveCourse : ℕ → Db → Type 0
IsActiveCourse k d = (r : Course) × (find_course k d.courses ≡ some r) × (r.is_active ≡ true)

abbrev pub IsActiveRoom : Option ℕ → Db → Type 0
IsActiveRoom none d = Unit
IsActiveRoom (some k) d = (r : Room) × (find_room k d.rooms ≡ some r) × (r.is_active ≡ true)

-- A guard changes nothing, and where it returns `P` holds.
abbrev pub Guards : Type 0 → Session → Result (Unit {0}) × Session → Type 0
Guards P s (ok _, s') = (s' ≡ s) × P
Guards P s (raised _, s') = s' ≡ s

pub require_student_lem :
    (k : ℕ) (s : Session) → Guards (IsActiveStudent k s.working) s (require_student k s)
unfolding require_student
require_student_lem k s = ground arith

pub require_course_lem :
    (k : ℕ) (s : Session) → Guards (IsActiveCourse k s.working) s (require_course k s)
unfolding require_course
require_course_lem k s = ground arith

pub require_room_lem :
    (k : Option ℕ) (s : Session) → Guards (IsActiveRoom k s.working) s (require_room k s)
unfolding require_room
require_room_lem none s = (refl, tt)
require_room_lem (some k) s = ground arith
