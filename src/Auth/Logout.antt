-- ===== src/Auth/Logout.antt =====
-- `logout`: both cookies are put on the blocklist, and the audit row is advisory.
pub mod Revokes
use text.Mathlib.Text.{◌==◌ as str_eq}
use attendence_v.Prelude.{ℕ, String, Bool, true, false, Option, none, some, List, [], if◌then◌else◌}
use attendence_v.Storage.{
  Session, Platform, Error, Result, ok, raised, Exec, pure, ◌>>=◌, ◌>>◌, commit,
}
use attendence_v.Storage.Models.{User}
use attendence_v.Audit.{AuditEvent, emit_with_policy, logout as logout_action}
use attendence_v.Redis.{Redis}
use attendence_v.Auth.Tokens.{
  TokenType, decode_token, SecuritySettings, Jwt, Checked, claims_of, rejected, access, refresh,
  blocklist_token, validate_token,
}
use attendence_v.Auth.Replies.{session_event}

-- What the route reads of the request: the two cookies, the request's id and the address.
pub record LogoutRequest : Type 0 where
  pub access_cookie : Option String
  pub refresh_cookie : Option String
  pub request_id : Option ℕ
  pub client_ip : Option String

abbrev pub logout_event : LogoutRequest → User → AuditEvent
logout_event request user =
    session_event logout_action user.id [] request.request_id request.client_ip

module _ (redis : Redis) (jwt : Jwt) (settings : SecuritySettings) (p : Platform) where
  open redis use {State}

  unfoldable pub revoke_checked : ℕ → String → Checked → State → State
  revoke_checked now reason (rejected e) r = r
  revoke_checked now reason (claims_of claims) r =
      (blocklist_token redis now claims reason false r).1

  unfoldable pub revoke_token_if_valid : ℕ → Option String → TokenType → String → State → State
  revoke_token_if_valid now none expected reason r = r
  revoke_token_if_valid now (some token) expected reason r =
      if str_eq (p.strip token) ""
      then r
      else revoke_checked now reason
          (validate_token redis jwt settings now (p.strip token) expected r) r

  unfoldable pub log_logout : LogoutRequest → User → Exec String
  log_logout request user = do
    emit_with_policy p false (logout_event request user)
    commit p
    pure "Logout successful."

  unfoldable pub logout :
      ℕ → LogoutRequest → User → Session → State → Result String × Session × State
  logout now request user s r =
      let r1 = revoke_token_if_valid now request.access_cookie access "logout" r in
      let r2 = revoke_token_if_valid now request.refresh_cookie refresh "logout" r1 in
      let (reply, s') = log_logout request user s in (reply, s', r2)
