-- ===== src/Auth/Tests.antt =====
-- Runs of the sessions, and the theorems at one user and one token.
use text.Mathlib.Text.{◌==◌ as str_eq}
use attendence_v.Prelude.{String, is_some}
use attendence_v.Prelude.{◌≡◌, ◌≢◌, inl, refl, ap, true, false, some, none, Option, [], arith}
use mathlib.Core.Bool.{true≢false}
use attendence_v.Fixtures.{plain, broken, class_db, opened, teacher}
use attendence_v.Storage.{Session, database, http, ok, raised}
use attendence_v.Storage.Models.{instructor, User}
use attendence_v.Audit.Policy.{with_row}
use attendence_v.Redis.Memory.{memory}
use attendence_v.Auth.Tokens.Decoding.{decode_token-encode}
use attendence_v.Auth.Tokens.{decode_token}
use attendence_v.Auth.Tokens.{
  TokenClaims, TokenType, SecuritySettings, claims_of, access, refresh, validate_token,
  blocklist_token, is_token_blocklisted, check_claims, same_type, token_blocklist_key,
  seconds_until,
}
use attendence_v.Auth.Tokens.Plain.{plain_jwt, spell, more, first}
use attendence_v.Auth.Replies.{open_session, reuse_event}
use attendence_v.Auth.Refresh.{
  rotate, refresh_session, admit, check_validated, check_user, rotate_admitted,
}
use attendence_v.Auth.Refresh.SingleUse.{rotate_race, refresh_single_use}
use attendence_v.Auth.Login.{
  Passwords, LoginRequest, login, users_by_email, verify_login_credentials, verify_password,
}
use attendence_v.Auth.Login.Ends.{Ended, verify_login_credentials_lem, login_lem}
use attendence_v.Auth.Logout.{LogoutRequest, logout}
use attendence_v.Auth.Logout.Revokes.{logout_revokes}

abbrev settings : SecuritySettings
settings = record {
  jwt_issuer = "attendance";
  jwt_audience = "dashboard";
  access_token_ttl_minutes = 1;
  refresh_token_ttl_days = 1;
}

-- The teacher's tokens, which expire in second 9.
abbrev entry : TokenClaims
entry = record {
  sub = 1;
  jti = "a";
  token_type = access;
  exp = 9;
  iat = 0;
  iss = "attendance";
  aud = "dashboard";
  role = instructor;
}

abbrev renewal : TokenClaims
renewal = record entry { jti = "r"; token_type = refresh }

abbrev class : Session
class = opened class_db

decoded :
    (c : TokenClaims)
    → c.exp ≡ 9
    → c.iat ≡ 0
    → c.aud ≡ "dashboard"
    → c.iss ≡ "attendance"
    → str_eq c.jti "" ≡ false
    → decode_token plain_jwt settings 1000500 (plain_jwt.encode c) ≡ some c
decoded c e b audience issuer named =
    decode_token-encode plain_jwt settings 1000500 c audience issuer named (omega (arith, b))
      (omega (arith, e))

entry_decoded : decode_token plain_jwt settings 1000500 (plain_jwt.encode entry) ≡ some entry
entry_decoded = decoded entry refl refl refl refl refl

renewal_decoded : decode_token plain_jwt settings 1000500 (plain_jwt.encode renewal) ≡ some renewal
renewal_decoded = decoded renewal refl refl refl refl refl

accepted :
    (c : TokenClaims) (kind : TokenType)
    → decode_token plain_jwt settings 1000500 (plain_jwt.encode c) ≡ some c
    → same_type c.token_type kind ≡ true
    → validate_token memory plain_jwt settings 1000500 (plain_jwt.encode c) kind [] ≡ claims_of c
unfolding validate_token check_claims is_token_blocklisted
accepted c kind e k = rw (e, k) refl

rotate_race_example :
    let first =
      rotate memory plain_jwt plain settings 1000500 ("b", "c") (renewal, teacher) class [] in
    let other =
      rotate memory plain_jwt plain settings 2000500 ("d", "e") (renewal, teacher) class first.2 in
    (first.0 ≡ ok (open_session plain_jwt settings teacher ("b", "c") 1000500))
    × (other.2 ≡ first.2)
    × (let row = with_row plain (reuse_event (some 1) renewal) class in
        (plain.accepts row ≡ true
          → plain.commits row ≡ true
          → (other.0 ≡ raised (http 401 "Refresh token has already been used."))
            × (other.1.committed ≡ row))
        × (plain.accepts row ≡ true
            → plain.commits row ≡ false
            → (other.0 ≡ raised database) × (other.1.committed ≡ class_db))
        × (plain.accepts row ≡ false
            → (other.0 ≡ raised database) × (other.1.committed ≡ class_db)))
unfolding seconds_until
rotate_race_example =
    rotate_race memory plain_jwt plain settings 1000500 2000500 ("b", "c") ("d", "e")
      (renewal, teacher) class class [] refl (omega arith) (omega arith)

full_renewal : str_eq (plain_jwt.encode renewal) "" ≡ false
unfolding spell more first
full_renewal = refl

full_entry : str_eq (plain_jwt.encode entry) "" ≡ false
unfolding spell more first
full_entry = refl

refresh_returns :
    (refresh_session memory plain_jwt plain settings 1000500
      (some (plain_jwt.encode renewal))
      ("b", "c")
      class
      []).0
    ≡ ok (open_session plain_jwt settings teacher ("b", "c") 1000500)
unfolding refresh_session rotate_admitted admit check_validated check_user rotate blocklist_token
    spell seconds_until same_type
refresh_returns = rw (full_renewal, accepted renewal refresh renewal_decoded refl) refl

refresh_single_use_example :
    let after =
      (refresh_session memory plain_jwt plain settings 1000500
        (some (plain_jwt.encode renewal))
        ("b", "c")
        class
        []).2 in
    (refresh_session memory plain_jwt plain settings 2000500
      (some (plain_jwt.encode renewal))
      ("d", "e")
      class
      after).0
    ≢ ok (open_session plain_jwt settings teacher ("d", "e") 2000500)
refresh_single_use_example =
    refresh_single_use memory plain_jwt plain settings 1000500 2000500 (plain_jwt.encode renewal)
      renewal ("b", "c") ("d", "e") class class [] renewal_decoded refresh_returns (omega arith)
      (inl (omega arith))

abbrev leaving : LogoutRequest
leaving = record {
  access_cookie = some (plain_jwt.encode entry);
  refresh_cookie = some (plain_jwt.encode renewal);
  request_id = none;
  client_ip = none;
}

distinct_keys : token_blocklist_key entry.jti ≢ token_blocklist_key renewal.jti
unfolding token_blocklist_key
distinct_keys e = true≢false (ap (λ k. str_eq k "auth:blocklist:a") e)

logout_revokes_example :
    let after = (logout memory plain_jwt settings broken 1000500 leaving teacher class []).2 in
    ((x : TokenClaims)
      → validate_token memory plain_jwt settings 2000500 (plain_jwt.encode entry) access after
        ≢ claims_of x)
    × ((x : TokenClaims)
        → validate_token memory plain_jwt settings 2000500 (plain_jwt.encode renewal) refresh after
          ≢ claims_of x)
unfolding same_type
logout_revokes_example =
    logout_revokes memory plain_jwt settings broken 1000500 2000500 leaving teacher class []
      (plain_jwt.encode entry) (plain_jwt.encode renewal) entry renewal refl refl full_entry
      full_renewal (accepted entry access entry_decoded refl)
      (accepted renewal refresh renewal_decoded refl) distinct_keys (omega arith)
      (inl (omega arith)) (inl (omega arith))

abbrev passwords : Passwords
passwords = record {
  verify = str_eq;
  hash = λ s. s;
  token_urlsafe = "dummy";
  column_lower = λ s. s;
}

abbrev signing_in : LoginRequest
signing_in = record {
  email = "t@example.org";
  password = "hash";
  request_id = none;
  client_ip = none;
}

verify_login_credentials_example :
    let (valid, runs, cache') = verify_login_credentials passwords none none "guess" in
    (false ≡ true → (runs ≡ 1) × (cache' ≡ none))
    × (◌≡◌ {A = Option User} none none → (valid ≡ false) × (is_some cache' ≡ true))
    × (◌≡◌ {A = Option User} none none → false ≡ true → (runs ≡ 1) × (cache' ≡ none))
    × (◌≡◌ {A = Option User} none none → ◌≡◌ {A = Option String} none none → runs ≡ 2)
verify_login_credentials_example =
    verify_login_credentials_lem passwords none none "guess" refl refl (λ d e. ground arith)
      (λ u e. ground arith)

login_example :
    let (r, s') = login plain_jwt plain settings passwords none signing_in ("b", "c") class in
    let valid = (verify_login_credentials passwords none (some teacher) "hash").0 in
    (valid ≡ false → (r ≡ raised (http 401 "Invalid email or password.")) × (s' ≡ class))
    × (valid ≡ true
        → teacher.is_active ≡ false
        → (r ≡ raised (http 403 "User account is inactive.")) × (s' ≡ class))
    × (valid ≡ true
        → teacher.is_active ≡ true
        → Ended plain_jwt plain settings passwords signing_in ("b", "c") teacher class (r, s'))
unfolding users_by_email
login_example =
    login_lem plain_jwt plain settings passwords none signing_in ("b", "c") teacher class refl refl

-- The right password is accepted, so the run of `login` above signs the teacher in.
accepts_right : (verify_login_credentials passwords none (some teacher) "hash").0 ≡ true
unfolding verify_login_credentials verify_password
accepts_right = refl
