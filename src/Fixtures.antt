-- ===== src/Fixtures.antt =====
-- Small databases and platforms, for the instances of the theorems.
use attendence_v.Prelude.{true, false, some, none, [], ◌∷◌}
use attendence_v.Prelude.Double.{half_double}
use attendence_v.Storage.{Db, Session, Platform}
use attendence_v.Storage.Models.{User, Student, Course, Sighting, instructor, granted}

-- A platform on which every write goes through, over lower-case text with no blanks.
abbrev pub plain : Platform
plain = record {
  accepts = λ d. true;
  commits = λ d. true;
  now = 900;
  lower = λ s. s;
  strip = λ s. s;
  iso_date = λ d. "2026-05-01";
  uuid_text = λ k. "5";
}

-- A platform whose database takes nothing.
abbrev pub broken : Platform
broken = record plain { accepts = λ d. false }

abbrev pub empty_db : Db
empty_db = record {
  users = [];
  students = [];
  courses = [];
  rooms = [];
  course_instructors = [];
  sightings = [];
  class_session_records = [];
  student_embeddings = [];
  template_audit_logs = [];
  governance_logs = [];
}

abbrev pub teacher : User
teacher = record {
  id = 1;
  email = "t@example.org";
  full_name = "T. Teacher";
  password_hash = "hash";
  role = instructor;
  is_active = true;
  last_login_at = none;
}

abbrev pub student_five : Student
student_five = record {
  id = 5;
  user_id = 2;
  student_number = "S5";
  enrollment_year = 2025;
  date_of_birth = none;
  is_active = true;
  consent_status = granted;
  consent_at = none;
}

abbrev pub course_seven : Course
course_seven = record { id = 7; is_active = true }

-- A sighting of student 5 in course 7 on day 1.
abbrev pub seen_once : Sighting
seen_once = record {
  id = 30;
  student_id = some 5;
  course_id = 7;
  room_id = none;
  timestamp = 86400000100;
  camera_id = "cam";
  confidence_score = some half_double;
  embedding_reference = none;
}

abbrev pub class_db : Db
class_db = record empty_db {
  users = teacher ∷ [];
  students = student_five ∷ [];
  courses = course_seven ∷ [];
  sightings = seen_once ∷ [];
}

-- A session with no open change.
abbrev pub opened : Db → Session
opened d = record { committed = d; working = d }
