-- ===== src/Access/Tests.antt =====
-- The guards at one user.
use text.Mathlib.Text.{◌==◌ as str_eq}
use attendence_v.Prelude.{◌≡◌, refl, ap, String, true, false, some, none, [], ◌∷◌, arith}
use attendence_v.Fixtures.{plain, class_db, opened, teacher}
use attendence_v.Storage.{Session, ok}
use attendence_v.Storage.Models.{CourseInstructor}
use attendence_v.Redis.Memory.{memory}
use attendence_v.Auth.Tokens.{
  TokenClaims, SecuritySettings, claims_of, access, validate_token, build_claims,
  create_access_token,
}
use attendence_v.Auth.Tokens.Plain.{plain_jwt, spell, more, first}
use attendence_v.Auth.Replies.{open_session, find_user}
use attendence_v.Access.{credentials, get_current_user, ensure_course_scoped_principal}
use attendence_v.Access.Roles.{get_current_user_lem, session_authenticates}
use attendence_v.Access.Scope.{Decided, MayManage, ensure_course_scoped_principal_lem}

abbrev settings : SecuritySettings
settings = record {
  jwt_issuer = "attendance";
  jwt_audience = "dashboard";
  access_token_ttl_minutes = 1;
  refresh_token_ttl_days = 1;
}

abbrev class : Session
class = opened class_db

abbrev ticket : String
unfolding open_session create_access_token build_claims
ticket = (open_session plain_jwt settings teacher ("a", "r") 500).access_cookie

full_ticket : str_eq ticket "" ≡ false
unfolding ticket open_session create_access_token build_claims spell more first
full_ticket = refl

session_authenticates_example :
    get_current_user memory plain_jwt settings plain 1000500 none (some ticket) [] class
    ≡ (ok teacher, class)
unfolding ticket open_session create_access_token build_claims
session_authenticates_example =
    session_authenticates memory plain_jwt settings plain teacher teacher ("a", "r") 500 1000500
      class [] refl full_ticket refl (omega arith) (omega arith) refl refl refl

get_current_user_example :
    let answer =
      get_current_user memory plain_jwt settings plain 1000500 none (some ticket) [] class in
    (answer.1 ≡ class)
    × (teacher.is_active ≡ true)
    × ((token : String) × (claims : TokenClaims) × (credentials none (some ticket) ≡ some token)
        × (str_eq token "" ≡ false)
        × (validate_token memory plain_jwt settings 1000500 token access [] ≡ claims_of claims)
        × (find_user claims.sub class_db.users ≡ some teacher))
get_current_user_example =
    get_current_user_lem memory plain_jwt settings plain 1000500 none (some ticket) class [] teacher
      (ap (λ a. a.0) session_authenticates_example)

abbrev owner_row : CourseInstructor
owner_row = record { user_id = 1; course_id = 7; role_in_course = "owner" }

abbrev owned : Session
owned = opened (record class_db { course_instructors = owner_row ∷ [] })

ensure_course_scoped_principal_example :
    Decided
      (MayManage teacher 7 owned.working)
      teacher
      owned
      (ensure_course_scoped_principal true teacher 7 owned)
ensure_course_scoped_principal_example = ensure_course_scoped_principal_lem teacher 7 owned
