-- ===== src/Auth/Login.antt =====
-- `login`: one Argon2 verification for every attempt, and a session for the right password.
pub mod Ends
use text.Mathlib.Text.{◌==◌ as str_eq}
use attendence_v.Prelude.{
  ℕ, ◌+◌, String, Bool, true, false, not, Option, none, some, List, [], ◌∷◌, if◌then◌else◌, ◌==◌,
  ◌||◌,
}
use attendence_v.Storage.{
  Db, Session, Platform, Error, Result, ok, raised, database, missing_greenlet, value_error, http,
  Exec, pure, raise, ◌>>=◌, ◌>>◌, query, add, commit,
}
use attendence_v.Storage.Models.{User, GovernanceLog, string}
use attendence_v.Audit.{AuditEvent, emit_with_policy, login_succeeded}
use attendence_v.Auth.Tokens.{SecuritySettings, Jwt}
use attendence_v.Auth.Replies.{SessionResponse, open_session, session_event}

-- What the route takes from Passlib, `secrets` and PostgreSQL: the Argon2 check and the Argon2 hash,
-- the random text of the dummy, and `lower` on a column.
pub record Passwords : Type 0 where
  pub verify : String → String → Bool
  pub hash : String → String
  pub token_urlsafe : String
  pub column_lower : String → String

-- The payload, and what the route reads of the request.
pub record LoginRequest : Type 0 where
  pub email : String
  pub password : String
  pub request_id : Option ℕ
  pub client_ip : Option String

module _ (passwords : Passwords) where
  -- The answer, and how many times Argon2 ran.
  unfoldable pub verify_password : String → String → Bool × ℕ
  verify_password password password_hash =
      if str_eq password "" || str_eq password_hash ""
      then (false, 0)
      else (passwords.verify password password_hash, 1)

  -- `_dummy_password_hash`, whose cache is empty until the first call; `hash_password` runs Argon2.
  -- The hash, how many times Argon2 ran, and the cache.
  unfoldable pub dummy_password_hash : Option String → String × ℕ × Option String
  dummy_password_hash (some dummy) = (dummy, 0, some dummy)
  dummy_password_hash none =
      (passwords.hash passwords.token_urlsafe, 1, some (passwords.hash passwords.token_urlsafe))

  -- The answer, how many times Argon2 ran, and the cache.
  unfoldable pub verify_login_credentials :
      Option String → Option User → String → Bool × ℕ × Option String
  unfolding dummy_password_hash verify_password
  verify_login_credentials cache none password =
      let (dummy, runs, cache') = dummy_password_hash cache in
      (false, runs + (verify_password password dummy).1, cache')
  verify_login_credentials cache (some user) password =
      let (valid, runs) = verify_password password user.password_hash in (valid, runs, cache)

  -- The users whose e-mail, in lower case, is the given one.
  unfoldable pub users_by_email : String → List User → List User
  users_by_email email [] = []
  users_by_email email (u ∷ us) =
      if str_eq (passwords.column_lower u.email) email
      then u ∷ users_by_email email us
      else users_by_email email us

-- `scalar_one_or_none()`; more than one row is SQLAlchemy's MultipleResultsFound.
unfoldable pub one_or_none : List User → Exec (Option User)
one_or_none [] = pure none
one_or_none (u ∷ []) = pure (some u)
one_or_none (u ∷ v ∷ us) = raise database

-- `user.last_login_at = now`, as the commit writes it.
unfoldable pub stamp_login : ℕ → ℕ → List User → List User
stamp_login k now [] = []
stamp_login k now (u ∷ us) =
    if k == u.id then record u { last_login_at = some now } ∷ us else u ∷ stamp_login k now us

abbrev pub stamped : ℕ → ℕ → Db → Db
stamped k now d = record d { users = stamp_login k now d.users }

abbrev pub login_event : LoginRequest → User → AuditEvent
login_event payload user =
    session_event login_succeeded user.id (("method", string "password") ∷ []) payload.request_id
      payload.client_ip

module _ (jwt : Jwt) (p : Platform) (settings : SecuritySettings) (passwords : Passwords) where
  -- From the emission on. An emission that failed has rolled the session back, which expires
  -- `user`: the next `user.id` is a lazy load in a coroutine, for which SQLAlchemy raises
  -- MissingGreenlet.
  unfoldable pub after_emission :
      String × String → User → Option GovernanceLog → Exec SessionResponse
  after_emission jtis user none = raise missing_greenlet
  after_emission jtis user (some row) = do
    add (stamped user.id p.now)
    commit p
    pure (open_session jwt settings user jtis p.now)

  unfoldable pub sign_in : LoginRequest → String × String → User → Exec SessionResponse
  unfolding after_emission
  sign_in payload jtis user = do
    row ← emit_with_policy p false (login_event payload user)
    after_emission jtis user row

  -- `cache` is the dummy hash that the process has made, if it has; what becomes of it is in
  -- `verify_login_credentials`.
  module _ (cache : Option String) where
    -- From the check of the credentials on; the first clause never gets past that check.
    unfoldable pub check_login : LoginRequest → String × String → Option User → Exec SessionResponse
    check_login payload jtis none =
        if not (verify_login_credentials passwords cache none payload.password).0
        then raise (http 401 "Invalid email or password.")
        else raise (value_error "'NoneType' object has no attribute 'is_active'")
    check_login payload jtis (some user) =
        if not (verify_login_credentials passwords cache (some user) payload.password).0
        then raise (http 401 "Invalid email or password.")
        else if not user.is_active
        then raise (http 403 "User account is inactive.")
        else sign_in payload jtis user

    unfoldable pub login : LoginRequest → String × String → Exec SessionResponse
    login payload jtis = do
      users ← query (λ d. users_by_email passwords (p.lower payload.email) d.users)
      user ← one_or_none users
      check_login payload jtis user
