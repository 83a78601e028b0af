-- ===== src/Auth/Refresh.antt =====
-- `refresh_session`: a refresh token is exchanged once for a new pair of tokens.
pub mod SingleUse
use text.Mathlib.Text.{◌==◌ as str_eq}
use attendence_v.Prelude.{
  ℕ, String, Bool, true, false, not, Option, none, some, List, [], ◌∷◌, if◌then◌else◌, ◌==◌,
}
use mathlib.Core.Option
use attendence_v.Storage.{
  Db, Session, Platform, Error, Result, ok, raised, http, Exec, pure, raise, ◌>>=◌, ◌>>◌, commit,
  query,
}
use attendence_v.Storage.Models.{User}
use attendence_v.Audit.{AuditEvent, emit_with_policy}
use attendence_v.Redis.{Redis}
use attendence_v.Auth.Tokens.{
  decode_token, TokenClaims, SecuritySettings, Jwt, Checked, claims_of, rejected, refresh,
  same_type, blocklist_token, is_token_blocklisted, validate_token,
}
use attendence_v.Auth.Replies.{find_user, SessionResponse, open_session, reuse_event}

module _ (redis : Redis) (jwt : Jwt) (p : Platform) (settings : SecuritySettings) where
  open redis use {State}

  unfoldable pub reused_claims : ℕ → Option TokenClaims → State → Option TokenClaims
  reused_claims now none r = none
  reused_claims now (some claims) r =
      if not (same_type claims.token_type refresh)
      then none
      else if not (is_token_blocklisted redis now claims.jti r)
      then none
      else some claims

  -- `_refresh_reuse_claims`, on a token that is not blank.
  unfoldable pub refresh_reuse_claims : ℕ → String → State → Option TokenClaims
  unfolding reused_claims
  refresh_reuse_claims now token r = reused_claims now (decode_token jwt settings now token) r

  -- A strict emission and its own commit.
  unfoldable pub record_reuse : Option ℕ → TokenClaims → Exec (Unit {0})
  record_reuse user claims = do emit_with_policy p true (reuse_event user claims); commit p

  unfoldable pub record_if_replayed : Option TokenClaims → Exec (Unit {0})
  record_if_replayed none = pure tt
  record_if_replayed (some claims) = do
    user ← query (λ d. find_user claims.sub d.users)
    record_reuse (Option.map (λ u. u.id) user) claims

  -- The handler of a rejected token: the evidence, and then 401 in every case.
  unfoldable pub reject : ℕ → String → State → Exec (TokenClaims × User)
  reject now token r = do
    record_if_replayed (refresh_reuse_claims now token r)
    raise (http 401 "Refresh token is invalid or expired.")

  unfoldable pub check_user : TokenClaims → Option User → Exec (TokenClaims × User)
  check_user claims none = raise (http 401 "Authenticated user does not exist.")
  check_user claims (some user) =
      if not user.is_active
      then raise (http 403 "User account is inactive.")
      else pure (claims, user)

  unfoldable pub check_validated : ℕ → String → State → Checked → Exec (TokenClaims × User)
  check_validated now token r (rejected e) = reject now token r
  check_validated now token r (claims_of claims) = do
    user ← query (λ d. find_user claims.sub d.users)
    check_user claims user

  -- Everything before the rotation: the cookie, the token, the user.
  unfoldable pub admit : ℕ → Option String → State → Exec (TokenClaims × User)
  admit now none r = raise (http 401 "Refresh token cookie is missing.")
  admit now (some raw) r =
      if str_eq (p.strip raw) ""
      then raise (http 401 "Refresh token cookie is missing.")
      else check_validated now (p.strip raw) r
          (validate_token redis jwt settings now (p.strip raw) refresh r)

  unfoldable pub lose : TokenClaims → User → Exec SessionResponse
  lose claims user = do
    record_reuse (some user.id) claims
    raise (http 401 "Refresh token has already been used.")

  -- The rotation, which SET NX makes one step for all requests.
  unfoldable pub rotate :
      ℕ
      → String × String
      → TokenClaims × User
      → Session
      → State
      → Result SessionResponse × Session × State
  rotate now jtis (claims, user) s r =
      let (won, r') = blocklist_token redis now claims "refresh_rotation" true r in
      if won
      then (ok (open_session jwt settings user jtis now), s, r')
      else (let (reply, s') = lose claims user s in (reply, s', r'))

  unfoldable pub rotate_admitted :
      ℕ
      → String × String
      → State
      → Result (TokenClaims × User) × Session
      → Result SessionResponse × Session × State
  rotate_admitted now jtis r (raised x, s) = (raised x, s, r)
  rotate_admitted now jtis r (ok a, s) = rotate now jtis a s r

  unfoldable pub refresh_session :
      ℕ
      → Option String
      → String × String
      → Session
      → State
      → Result SessionResponse × Session × State
  unfolding rotate_admitted
  refresh_session now raw jtis s r = rotate_admitted now jtis r (admit now raw r s)
