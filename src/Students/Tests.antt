-- ===== src/Students/Tests.antt =====
-- The consent and the profile of student 5.
use mathlib.Core.Option
use attendence_v.Prelude.{◌≡◌, refl, some, none, true, false, ◌==◌, if◌then◌else◌}
use attendence_v.Fixtures.{plain, class_db, opened, student_five}
use attendence_v.Storage.{Session, raised, http}
use attendence_v.Storage.Models.{Student}
use attendence_v.Crud.Blocks.{Settled}
use attendence_v.Attendance.Guards.{find_student}
use attendence_v.Students.{ConsentRequest, withdraw, decided, store_consent, record_student_consent}
use attendence_v.Storage.Models.{User}
use attendence_v.Auth.Replies.{find_user}
use attendence_v.Crud.Requests.{Replies}
use attendence_v.Students.Profiles.{create_student_route}
use attendence_v.Students.Profiles.Writes.{with_student, create_student_route-Replies}
use attendence_v.Students.Decisions.{consented, consent-Settled}

abbrev withdrawing : ConsentRequest
withdrawing = record {
  student_id = 5;
  decision = withdraw;
  reason = none;
  actor = 1;
  clock = 86400000900;
  request_id = none;
  client_ip = some "10.0.0.1";
}

abbrev class : Session
class = opened class_db

consent-Settled_example :
    ((student : Student)
      → find_student 5 class_db.students ≡ some student
      → Settled class
          (λ _. consented withdrawing plain student class_db)
          (record_student_consent withdrawing plain class))
    × (find_student 5 class_db.students ≡ none
        → record_student_consent withdrawing plain class
          ≡ (raised (http 404 "Student not found."), class))
    × (find_student 5 (store_consent withdrawing plain class_db).students ≡ (
        if 5 == 5
        then Option.map (decided withdrawing plain) (find_student 5 class_db.students)
        else find_student 5 class_db.students))
consent-Settled_example = consent-Settled withdrawing plain class 5 refl

-- A profile for the teacher's account.
abbrev profile : Student
profile = record student_five { id = 6; user_id = 1; student_number = "S6" }

create_student_route_example :
    Replies class profile
      (with_student plain (some 1) true profile class_db)
      (create_student_route plain (some 1) true profile class)
    × (find_user 1 class_db.users ≡ none
        → create_student_route plain (some 1) true profile class
          ≡ (raised (http 400 "Linked user does not exist."), class))
    × ((user : User)
        → find_user 1 class_db.users ≡ some user
        → user.is_active ≡ false
        → create_student_route plain (some 1) true profile class
          ≡ (raised (http 400 "Linked user is inactive."), class))
create_student_route_example = create_student_route-Replies plain (some 1) true profile class refl
