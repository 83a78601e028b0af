-- ===== src/Crud/Tests.antt =====
-- The write blocks on the table of courses.
use attendence_v.Prelude.{false, none, some, [], ◌∷◌}
use attendence_v.Fixtures.{plain, class_db, opened}
use attendence_v.Storage.Models.{Course}
use attendence_v.Audit.{AuditEvent, user_update}
use attendence_v.Crud.{Table, Service, event, update, get, patch_table}
use attendence_v.Crud.Writes.{Ends, update-Ends}

abbrev courses : Table Course
courses = record {
  rows = λ d. d.courses;
  replace = λ rs d. record d { courses = rs };
  id = λ r. r.id;
}

abbrev note : AuditEvent
note = record {
  action = user_update;
  entity_type = "user";
  entity_id = some 9;
  class_session_record_id = none;
  actor_user_id = none;
  reason = none;
  change_summary = [];
  request_id = none;
  ip_address = none;
}

abbrev service : Service Course
service = record { session = opened class_db; pending = event note ∷ [] }

-- A patch of a course that is not there: the event stays in the queue.
update-Ends_example :
    Ends service none
      (patch_table plain courses 9 ((λ r. record r { is_active = false }) ∷ []) class_db)
      (event note ∷ [])
      (update plain courses 9 ((λ r. record r { is_active = false }) ∷ []) service)
unfolding get
update-Ends_example = update-Ends plain courses 9 (λ r. record r { is_active = false }) [] service
