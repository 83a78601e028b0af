-- ===== src/Access.antt =====
-- Who may call what: backend/app/api/deps.py.
pub mod Roles
pub mod Scope
mod Tests
use text.Mathlib.Text.{◌==◌ as str_eq}
use attendence_v.Prelude.{
  ℕ, String, Bool, true, false, not, Option, none, some, List, [], ◌∷◌, if◌then◌else◌, ◌==◌, ◌||◌,
  ◌&&◌,
}
use attendence_v.Storage.{
  Db, Session, Platform, Error, Result, ok, raised, http, Exec, pure, raise, ◌>>=◌, query,
}
use attendence_v.Storage.Models.{
  User, UserRole, CourseInstructor, admin, instructor, auditor, operator,
}
use attendence_v.Redis.{Redis}
use attendence_v.Auth.Tokens.{
  decode_token, TokenClaims, SecuritySettings, Jwt, Checked, claims_of, rejected, access,
  validate_token,
}
use attendence_v.Auth.Replies.{find_user}

-- The bearer token if there is one, else the cookie.
unfoldable pub credentials : Option String → Option String → Option String
credentials (some bearer) cookie = some bearer
credentials none cookie = cookie

module _ (redis : Redis) (jwt : Jwt) (settings : SecuritySettings) (p : Platform) where
  open redis use {State}

  unfoldable pub check_active : Option User → Exec User
  check_active none = raise (http 401 "Authenticated user does not exist.")
  check_active (some user) =
      if not user.is_active then raise (http 403 "Authenticated user is inactive.") else pure user

  unfoldable pub check_token : Checked → Exec User
  check_token (rejected e) = raise (http 401 "Invalid or expired authentication token.")
  check_token (claims_of claims) = do
    user ← query (λ d. find_user claims.sub d.users)
    check_active user

  unfoldable pub authenticate : ℕ → Option String → State → Exec User
  authenticate now none r = raise (http 401 "Authentication credentials were not provided.")
  authenticate now (some token) r =
      if str_eq (p.strip token) ""
      then raise (http 401 "Authentication credentials were not provided.")
      else check_token (validate_token redis jwt settings now (p.strip token) access r)

  unfoldable pub get_current_user : ℕ → Option String → Option String → State → Exec User
  get_current_user now bearer cookie r = authenticate now (credentials bearer cookie) r

unfoldable pub same_role : UserRole → UserRole → Bool
same_role admin admin = true
same_role instructor instructor = true
same_role auditor auditor = true
same_role operator operator = true
same_role a b = false

unfoldable pub role_in : UserRole → List UserRole → Bool
role_in role [] = false
role_in role (a ∷ allowed) = same_role role a || role_in role allowed

unfoldable pub ensure_user_role : User → List UserRole → String → Result User
ensure_user_role user allowed detail =
    if not (role_in user.role allowed) then raised (http 403 detail) else ok user

unfoldable pub get_current_admin_user : User → Result User
get_current_admin_user user =
    ensure_user_role user (admin ∷ []) "Administrator privileges are required for this operation."

unfoldable pub get_current_instructor_user : User → Result User
get_current_instructor_user user =
    ensure_user_role user (admin ∷ instructor ∷ [])
      "Instructor or administrator privileges are required for this operation."

unfoldable pub get_current_ingest_user : User → Result User
get_current_ingest_user user =
    ensure_user_role user (admin ∷ instructor ∷ [])
      "Instructor or administrator privileges are required to submit frames for inference."

unfoldable pub get_current_worker_system : User → Result User
get_current_worker_system user =
    ensure_user_role user (admin ∷ operator ∷ [])
      "Worker system or administrator privileges are required for this operation."

unfoldable pub get_current_governance_reader : User → Result User
get_current_governance_reader user =
    ensure_user_role user (admin ∷ auditor ∷ [])
      "Auditor or administrator privileges are required for this operation."

-- The row that the link query looks for.
unfoldable pub is_owner_link : ℕ → ℕ → CourseInstructor → Bool
is_owner_link user_id course_id row =
    (row.user_id == user_id) && (row.course_id == course_id) && str_eq row.role_in_course "owner"

unfoldable pub linked : ℕ → ℕ → List CourseInstructor → Bool
linked user_id course_id [] = false
linked user_id course_id (row ∷ rows) =
    is_owner_link user_id course_id row || linked user_id course_id rows

-- `enabled` is the setting `course_scoped_authz_enabled`.
unfoldable pub ensure_course_scoped_principal : Bool → User → ℕ → Exec User
ensure_course_scoped_principal enabled user course_id s =
    if not enabled
    then (ok user, s)
    else if same_role user.role admin
    then (ok user, s)
    else if not (same_role user.role instructor)
    then (raised (http 404 "Course does not exist."), s)
    else if not (linked user.id course_id s.working.course_instructors)
    then (raised (http 404 "Course does not exist."), s)
    else (ok user, s)
