-- ===== src/Auth/Login/Ends.antt =====
-- How a login ends, and that an unknown e-mail costs as much as a known one.
use text.Mathlib.Text.{◌==◌ as str_eq}
use attendence_v.Prelude.{
  ℕ, List, ◌++◌, ◌==◌, ==-refl, is_some, sym, subst, ◌∙◌, ◌≡◌, refl, String, true, false, Option,
  none, some, [], ◌∷◌, arith, if◌then◌else◌,
}
use attendence_v.Storage.{
  Db, Session, Platform, Result, ok, raised, database, missing_greenlet, http, commit, flush,
}
use attendence_v.Audit.{AuditEvent, log_row, emit, emit_with_policy, settle}
use attendence_v.Storage.Models.{User}
use attendence_v.Audit.Policy.{with_row}
use attendence_v.Auth.Tokens.{SecuritySettings, Jwt}
use attendence_v.Auth.Replies.{SessionResponse, find_user, open_session}
use attendence_v.Auth.Login.{
  Passwords, LoginRequest, verify_password, verify_login_credentials, dummy_password_hash,
  users_by_email, one_or_none, stamp_login, after_emission, stamped, login_event, sign_in,
  check_login, login,
}

-- An attempt with a password, as long as no hash is empty. On a user's e-mail Argon2 runs exactly
-- once. On an unknown e-mail the answer is no; Argon2 runs once if the process has made its dummy
-- hash, and twice if it has not, and afterwards it has.
pub verify_login_credentials_lem :
    (passwords : Passwords) (cache : Option String) (user : Option User) (password : String)
    → (str_eq password "" ≡ false)
    → (str_eq (passwords.hash passwords.token_urlsafe) "" ≡ false)
    → ((dummy : String) → cache ≡ some dummy → str_eq dummy "" ≡ false)
    → ((u : User) → user ≡ some u → str_eq u.password_hash "" ≡ false)
    → let (valid, runs, cache') = verify_login_credentials passwords cache user password in
      (is_some user ≡ true → (runs ≡ 1) × (cache' ≡ cache))
      × (user ≡ none → (valid ≡ false) × (is_some cache' ≡ true))
      × (user ≡ none → is_some cache ≡ true → (runs ≡ 1) × (cache' ≡ cache))
      × (user ≡ none → cache ≡ none → runs ≡ 2)
unfolding verify_login_credentials verify_password dummy_password_hash
verify_login_credentials_lem passwords none none password given fresh dummy hashed =
    (ground arith, λ e. (refl, refl), ground arith, λ e f. rw (given, fresh) (omega arith))
verify_login_credentials_lem passwords (some d) none password given fresh dummy hashed = (
  ground arith,
  λ e. (refl, refl),
  λ e f. (rw (given, dummy d refl) (omega arith), refl),
  ground arith,
)
verify_login_credentials_lem passwords cache (some u) password given fresh dummy hashed =
    (λ e. (rw (given, hashed u refl) refl, refl), ground arith, ground arith, ground arith)

find_user-stamp_login :
    (k j now : ℕ) (users : List User)
    → find_user k (stamp_login j now users) ≡ (elim (find_user k users) [
      | none ↦ none
      | some u ↦ some (if k == j then record u { last_login_at = some now } else u)
    ])
unfolding stamp_login
find_user-stamp_login k j now [] = refl
find_user-stamp_login k j now (u ∷ us) = ground (arith, find_user-stamp_login k j now us)

-- What a login has committed: the row of its event, the time of the login at the user, and nothing
-- else at any user.
pub record SignedIn (p : Platform) (before after : Db) (user : User) (event : AuditEvent)
    : Type 0 where
  pub evidence : after.governance_logs ≡ before.governance_logs ++ log_row p event ∷ []
  pub stamp : find_user user.id after.users ≡ some (record user { last_login_at = some p.now })
  pub others : (k : ℕ) → (k == user.id) ≡ false → find_user k after.users ≡ find_user k before.users
  pub rest :
      record after { users = before.users; governance_logs = before.governance_logs } ≡ before

module _ (jwt : Jwt) (p : Platform) (settings : SecuritySettings) (passwords : Passwords) where
  signed_in :
      (payload : LoginRequest) (user : User) (s : Session)
      → find_user user.id s.working.users ≡ some user
      → SignedIn p s.working
          (stamped user.id p.now (with_row p (login_event payload user) s))
          user
          (login_event payload user)
  signed_in payload user s own = record {
    evidence = refl;
    stamp =
        find_user-stamp_login user.id user.id p.now s.working.users
        ∙ rw (own, ==-refl user.id) refl;
    others =
        λ k other. find_user-stamp_login k user.id p.now s.working.users ∙ ground (arith, other);
    rest = refl;
  }

  -- How `sign_in` ends, by what the database answers.
  abbrev pub Ended :
      LoginRequest → String × String → User → Session → Result SessionResponse × Session → Type 0
  Ended payload jtis user s (r, s') =
      let row = with_row p (login_event payload user) s in
      (p.accepts row ≡ true
        → p.commits (stamped user.id p.now row) ≡ true
        → (r ≡ ok (open_session jwt settings user jtis p.now))
          × SignedIn p s.working s'.committed user (login_event payload user))
      × (p.accepts row ≡ true
          → p.commits (stamped user.id p.now row) ≡ false
          → (r ≡ raised database) × (s'.committed ≡ s.committed))
      × (p.accepts row ≡ false → (r ≡ raised missing_greenlet) × (s'.committed ≡ s.committed))

  sign_in_lem :
      (payload : LoginRequest) (jtis : String × String) (user : User) (s : Session)
      → find_user user.id s.working.users ≡ some user
      → Ended payload jtis user s (sign_in jwt p settings passwords payload jtis user s)
  unfolding sign_in after_emission commit emit_with_policy emit flush settle
  sign_in_lem payload jtis user s own = (
    λ a c. rw (a, c) ((refl, signed_in payload user s own)),
    λ a c. rw (a, c) ((refl, refl)),
    λ a. rw a ((refl, refl)),
  )

  module _ (cache : Option String) where
    reaches_sign_in :
        (payload : LoginRequest) (jtis : String × String) (user : User) (s : Session)
        → users_by_email passwords (p.lower payload.email) s.working.users ≡ user ∷ []
        → (verify_login_credentials passwords cache (some user) payload.password).0 ≡ true
        → user.is_active ≡ true
        → login jwt p settings passwords cache payload jtis s
          ≡ sign_in jwt p settings passwords payload jtis user s
    unfolding login one_or_none check_login
    reaches_sign_in payload jtis user s h v a = simp (h, v, a)

    -- A login whose e-mail belongs to one user, the one under its id: a wrong password is answered
    -- 401 and an inactive account 403, both without a write. Else, if the database takes the audit
    -- row and the commit, the user gets a session made of two new tokens, and what is committed is
    -- the audit row and the login time of this user, and nothing else. If the commit fails, or if
    -- the advisory audit row is refused, the login raises and nothing is committed.
    pub login_lem :
        (payload : LoginRequest) (jtis : String × String) (user : User) (s : Session)
        → users_by_email passwords (p.lower payload.email) s.working.users ≡ user ∷ []
        → find_user user.id s.working.users ≡ some user
        → let (r, s') = login jwt p settings passwords cache payload jtis s in
          let valid = (verify_login_credentials passwords cache (some user) payload.password).0 in
          (valid ≡ false → (r ≡ raised (http 401 "Invalid email or password.")) × (s' ≡ s))
          × (valid ≡ true
              → user.is_active ≡ false
              → (r ≡ raised (http 403 "User account is inactive.")) × (s' ≡ s))
          × (valid ≡ true → user.is_active ≡ true → Ended payload jtis user s (r, s'))
    unfolding login one_or_none check_login
    login_lem payload jtis user s h own = (
      λ v. rw (h, v) ((refl, refl)),
      λ v a. rw (h, v, a) ((refl, refl)),
      λ v a.
          subst (Ended payload jtis user s) (sym (reaches_sign_in payload jtis user s h v a))
            (sign_in_lem payload jtis user s own),
    )
