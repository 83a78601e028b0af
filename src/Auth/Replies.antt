-- ===== src/Auth/Replies.antt =====
-- What the routes share: the user table, the response with its two cookies, and audit events.
use Prim.Native.String.{◌++◌ as text_append}
use attendence_v.Prelude.{
  ℕ, zero, suc, String, Option, none, some, List, [], ◌∷◌, ◌==◌, if◌then◌else◌,
}
use attendence_v.Storage.Models.{User, UserRole, Json, string}
use attendence_v.Audit.{GovernanceAction, AuditEvent, refresh_reused}
use attendence_v.Auth.Tokens.{
  TokenClaims, SecuritySettings, Jwt, create_access_token, create_refresh_token, seconds_until,
}

-- `_resolve_user_by_id`
abbrev pub find_user : ℕ → List User → Option User
find_user k [] = none
find_user k (u ∷ us) = if k == u.id then some u else find_user k us

-- The response of /login and /refresh, with the cookies of `_set_auth_cookies`.
pub record SessionResponse : Type 0 where
  pub user_id : ℕ
  pub role : UserRole
  pub access_token_expires_at : ℕ
  pub access_cookie : String
  pub access_max_age : ℕ
  pub refresh_cookie : String
  pub refresh_max_age : ℕ

-- Two fresh tokens for the user; `jtis` are the identifiers that `uuid4` gives them.
unfoldable pub open_session : Jwt → SecuritySettings → User → String × String → ℕ → SessionResponse
unfolding create_access_token create_refresh_token
open_session jwt settings user jtis now =
    let (access_token, access_claims) =
      create_access_token jwt settings user.id user.role jtis.0 now in
    let (refresh_token, refresh_claims) =
      create_refresh_token jwt settings user.id user.role jtis.1 now in
    record {
      user_id = user.id;
      role = user.role;
      access_token_expires_at = access_claims.exp;
      access_cookie = access_token;
      access_max_age = seconds_until access_claims.exp now;
      refresh_cookie = refresh_token;
      refresh_max_age = seconds_until refresh_claims.exp now;
    }

-- `text[:n]`
unfoldable pub take_text : ℕ → String → String
take_text zero s = String.[]
take_text (suc n) String.[] = String.[]
take_text (suc n) (String.◌∷◌ c s) = String.◌∷◌ c (take_text n s)

-- The event of a replayed refresh token.
abbrev pub reuse_event : Option ℕ → TokenClaims → AuditEvent
reuse_event user claims = record {
  action = refresh_reused;
  entity_type = "auth_session";
  entity_id = user;
  class_session_record_id = none;
  actor_user_id = user;
  reason = none;
  change_summary = ("jti_prefix", string (text_append (take_text 8 claims.jti) "…")) ∷ [];
  request_id = none;
  ip_address = none;
}

-- An event of the routes that have the request at hand.
abbrev pub session_event :
    GovernanceAction → ℕ → List (String × Json) → Option ℕ → Option String → AuditEvent
session_event action user summary request_id ip = record {
  action = action;
  entity_type = "auth_session";
  entity_id = some user;
  class_session_record_id = none;
  actor_user_id = some user;
  reason = none;
  change_summary = summary;
  request_id = request_id;
  ip_address = ip;
}
