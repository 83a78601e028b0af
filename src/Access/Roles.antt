-- ===== src/Access/Roles.antt =====
-- The guards against the table of roles, and the user that they see.
use text.Mathlib.Text.{◌==◌ as str_eq}
use attendence_v.Prelude.{
  ℕ, ◌*◌, ◌≤◌, ◌<◌, ◌≡◌, refl, String, Bool, true, false, Option, none, some, arith,
}
use attendence_v.Storage.{Session, Platform, Result, ok, raised}
use attendence_v.Storage.Models.{User, UserRole, admin, instructor, auditor, operator}
use attendence_v.Redis.{Redis, second}
use attendence_v.Auth.Tokens.Decoding.{decode_token-encode}
use attendence_v.Auth.Tokens.{
  TokenClaims, SecuritySettings, Jwt, claims_of, access, same_type, build_claims,
  create_access_token, token_blocklist_key, is_token_blocklisted, validate_token, check_claims,
}
use attendence_v.Auth.Replies.{find_user, open_session}
use attendence_v.Access.{
  check_active, check_token, credentials, authenticate, get_current_user, ensure_user_role, role_in,
  same_role, get_current_admin_user, get_current_instructor_user, get_current_ingest_user,
  get_current_worker_system, get_current_governance_reader,
}

-- What the documentation grants to a role.
pub record Rights : Type 0 where
  pub manages : Bool
  pub teaches : Bool
  pub ingests : Bool
  pub works : Bool
  pub audits : Bool

abbrev pub rights : UserRole → Rights
rights admin = record {
  manages = true;
  teaches = true;
  ingests = true;
  works = true;
  audits = true;
}
rights instructor = record {
  manages = false;
  teaches = true;
  ingests = true;
  works = false;
  audits = false;
}
rights auditor = record {
  manages = false;
  teaches = false;
  ingests = false;
  works = false;
  audits = true;
}
rights operator = record {
  manages = false;
  teaches = false;
  ingests = false;
  works = true;
  audits = false;
}

abbrev pub lets_in : Result User → Bool
lets_in (ok u) = true
lets_in (raised e) = false

-- The five guards let in exactly the roles of the table: an auditor nothing but the governance
-- readers' routes, an operator nothing but the workers', an instructor no others than teaching and
-- ingest, an administrator all.
guards_lem :
    (user : User)
    → (lets_in (get_current_admin_user user) ≡ (rights user.role).manages)
      × (lets_in (get_current_instructor_user user) ≡ (rights user.role).teaches)
      × (lets_in (get_current_ingest_user user) ≡ (rights user.role).ingests)
      × (lets_in (get_current_worker_system user) ≡ (rights user.role).works)
      × (lets_in (get_current_governance_reader user) ≡ (rights user.role).audits)
unfolding get_current_admin_user get_current_instructor_user get_current_ingest_user
    get_current_worker_system get_current_governance_reader ensure_user_role role_in same_role
guards_lem user = ground arith

module _ (redis : Redis) (jwt : Jwt) (settings : SecuritySettings) (p : Platform) where
  open redis use {State}

  -- A request that gets a user has a token that is not blank and that is validated as an access
  -- token at this moment, and the user is the active row that the token names: the role is the
  -- stored one, not the token's. It writes nothing.
  pub get_current_user_lem :
      (now : ℕ) (bearer cookie : Option String) (s : Session) (r : State) (user : User)
      → (get_current_user redis jwt settings p now bearer cookie r s).0 ≡ ok user
      → ((get_current_user redis jwt settings p now bearer cookie r s).1 ≡ s)
        × (user.is_active ≡ true)
        × ((token : String) × (claims : TokenClaims) × (credentials bearer cookie ≡ some token)
            × (str_eq (p.strip token) "" ≡ false)
            × (validate_token redis jwt settings now (p.strip token) access r ≡ claims_of claims)
            × (find_user claims.sub s.working.users ≡ some user))
  unfolding get_current_user authenticate check_token check_active
  get_current_user_lem now bearer cookie s r user h = ground arith

  -- The access token that a session opens with lets its user in, with the role that is stored at
  -- that time, from then on until it expires or its identifier is put on the blocklist.
  pub session_authenticates :
      (user stored : User) (jtis : String × String) (now t : ℕ) (s : Session) (r : State)
      → let token = (open_session jwt settings user jtis now).access_cookie in
        p.strip token ≡ token
        → str_eq token "" ≡ false
        → str_eq jtis.0 "" ≡ false
        → now ≤ t
        → t < (open_session jwt settings user jtis now).access_token_expires_at * second
        → redis.exists t (token_blocklist_key jtis.0) r ≡ false
        → find_user user.id s.working.users ≡ some stored
        → stored.is_active ≡ true
        → get_current_user redis jwt settings p t none (some token) r s ≡ (ok stored, s)
  unfolding open_session get_current_user authenticate credentials check_token check_active
      create_access_token build_claims validate_token is_token_blocklisted check_claims same_type
  session_authenticates user stored jtis now t s r stripped full named later early free found
        active =
      let claims =
        build_claims settings user.id user.role access (settings.access_token_ttl_minutes * 60)
          jtis.0 now in
      rw
        (
          stripped,
          full,
          decode_token-encode jwt settings t claims refl refl named (omega (arith, later)) early,
          free,
          found,
          active,
        )
        refl
