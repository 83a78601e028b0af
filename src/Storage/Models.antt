-- ===== src/Storage/Models.antt =====
-- Rows of backend/app/domain/models. A UUID is a number, in the order of its text; a moment is a
-- number of microseconds since the epoch in UTC, a date a number of days. Columns that no modelled
-- code reads or writes are left out.
use attendence_v.Prelude.{ℕ, ◌*◌, String, Bool, Option, List}
use attendence_v.Prelude.Double.{Double}

pub data UserRole : Type 0 where
  admin instructor auditor operator : UserRole

pub data AttendanceStatus : Type 0 where
  present absent late excused : AttendanceStatus

-- `biometric_consent_status`
pub data Consent : Type 0 where
  pending granted denied withdrawn : Consent

pub record User : Type 0 where
  pub id : ℕ
  pub email : String
  pub full_name : String
  pub password_hash : String
  pub role : UserRole
  pub is_active : Bool
  pub last_login_at : Option ℕ

pub record Student : Type 0 where
  pub id : ℕ
  pub user_id : ℕ
  pub student_number : String
  pub enrollment_year : ℕ
  pub date_of_birth : Option ℕ
  pub is_active : Bool
  pub consent_status : Consent
  pub consent_at : Option ℕ

pub record Course : Type 0 where
  pub id : ℕ
  pub is_active : Bool

pub record Room : Type 0 where
  pub id : ℕ
  pub is_active : Bool

-- `owner` and `ta` are the values of `role_in_course`.
pub record CourseInstructor : Type 0 where
  pub user_id : ℕ
  pub course_id : ℕ
  pub role_in_course : String

pub record Sighting : Type 0 where
  pub id : ℕ
  pub student_id : Option ℕ
  pub course_id : ℕ
  pub room_id : Option ℕ
  pub timestamp : ℕ
  pub camera_id : String
  pub confidence_score : Option Double
  pub embedding_reference : Option String

pub record ClassSessionRecord : Type 0 where
  pub id : ℕ
  pub student_id : ℕ
  pub course_id : ℕ
  pub session_date : ℕ
  pub status : AttendanceStatus
  pub sighting_count : ℕ
  pub required_sightings_threshold : ℕ
  pub evaluated_at : ℕ
  pub notes : Option String

pub record StudentEmbedding : Type 0 where
  pub id : ℕ
  pub student_id : ℕ
  pub embedding : List Double
  pub pose_label : String
  pub quality_score : Double
  pub is_active : Bool
  pub template_version : Option ℕ

-- A value of a JSON object in `change_summary` or `event_metadata`.
pub data Json : Type 0 where
  null : Json
  flag : Bool → Json
  number : ℕ → Json
  double : Double → Json
  string : String → Json
  strings : List String → Json

pub record TemplateAuditLog : Type 0 where
  pub student_id : ℕ
  pub student_embedding_id : Option ℕ
  pub action : String
  pub pose_label : Option String
  pub quality_score : Option Double
  pub event_metadata : List (String × Json)

pub record GovernanceLog : Type 0 where
  pub actor_user_id : Option ℕ
  pub class_session_record_id : Option ℕ
  pub action : String
  pub entity_type : String
  pub entity_id : Option ℕ
  pub reason : Option String
  pub change_summary : List (String × Json)
  pub request_id : Option ℕ
  pub ip_address : Option String
  pub created_at : ℕ

abbrev pub day : ℕ
day = 24 * 60 * 60 * 1000000
