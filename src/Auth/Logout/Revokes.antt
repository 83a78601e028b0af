-- ===== src/Auth/Logout/Revokes.antt =====
-- After a logout neither cookie opens anything.
use text.Mathlib.Text.{◌==◌ as str_eq}
use attendence_v.Prelude.{
  ℕ, ◌+◌, ◌*◌, ◌≤◌, ◌≡◌, ◌≢◌, ◌⊎◌, sym, subst, ◌∙◌, String, false, some, arith,
}
use attendence_v.Storage.{Session, Platform}
use attendence_v.Storage.Models.{User}
use attendence_v.Redis.{Redis, second}
use attendence_v.Auth.Tokens.Decoding.{decode_token_same}
use attendence_v.Auth.Tokens.{
  TokenType, decode_token, TokenClaims, SecuritySettings, Jwt, claims_of, access, refresh,
  token_blocklist_key, seconds_until, blocklist_token, is_token_blocklisted, validate_token,
}
use attendence_v.Auth.Tokens.Revocation.{blocklisted_is_rejected}
use attendence_v.Auth.Logout.{LogoutRequest, revoke_checked, revoke_token_if_valid, logout}

module _ (redis : Redis) (jwt : Jwt) (settings : SecuritySettings) where
  open redis use {State}

  -- A validation reads one key of Redis.
  validate_token_same :
      (t : ℕ) (token : String) (expected : TokenType) (c : TokenClaims) (r r' : State)
      → decode_token jwt settings t token ≡ some c
      → redis.exists t (token_blocklist_key c.jti) r' ≡ redis.exists t (token_blocklist_key c.jti) r
      → validate_token redis jwt settings t token expected r'
        ≡ validate_token redis jwt settings t token expected r
  unfolding validate_token is_token_blocklisted
  validate_token_same t token expected c r r' decoded same = rw (decoded, same)

  validated_decode :
      (t : ℕ) (token : String) (expected : TokenType) (c : TokenClaims) (r : State)
      → validate_token redis jwt settings t token expected r ≡ claims_of c
      → decode_token jwt settings t token ≡ some c
  unfolding validate_token
  validated_decode t token expected c r h = ground arith

  after_other :
      (now t : ℕ) (token : String) (expected : TokenType) (c b : TokenClaims) (r : State)
      → decode_token jwt settings t token ≡ some b
      → token_blocklist_key b.jti ≢ token_blocklist_key c.jti
      → validate_token redis jwt settings t token expected
          (blocklist_token redis now c "logout" false r).1
        ≡ validate_token redis jwt settings t token expected r
  unfolding blocklist_token
  after_other now t token expected c b r decoded other =
      validate_token_same t token expected b r (blocklist_token redis now c "logout" false r).1
        decoded
        (redis.set_other now (token_blocklist_key c.jti) "logout" (seconds_until c.exp now) false r
          t (token_blocklist_key b.jti) other)

  still_rejected :
      (now t : ℕ) (token : String) (expected : TokenType) (c b d : TokenClaims) (r : State)
      → decode_token jwt settings now token ≡ some b
      → token_blocklist_key b.jti ≢ token_blocklist_key c.jti
      → ((d : TokenClaims) → validate_token redis jwt settings t token expected r ≢ claims_of d)
      → validate_token redis jwt settings t token expected
          (blocklist_token redis now c "logout" false r).1
        ≢ claims_of d
  still_rejected now t token expected c b d r decoded other refused h =
      let later =
        validated_decode t token expected d (blocklist_token redis now c "logout" false r).1 h in
      let same = decode_token_same jwt settings now t token b d decoded later in
      refused d (
        sym (
          after_other now t token expected c b r
            (subst (λ x. decode_token jwt settings t token ≡ some x) same later) other)
        ∙ h)

  module _ (p : Platform) where
    revoke_lem :
        (now : ℕ) (cookie : String) (expected : TokenType) (c : TokenClaims) (r : State)
        → str_eq (p.strip cookie) "" ≡ false
        → validate_token redis jwt settings now (p.strip cookie) expected r ≡ claims_of c
        → revoke_token_if_valid redis jwt settings p now (some cookie) expected "logout" r
          ≡ (blocklist_token redis now c "logout" false r).1
    unfolding revoke_token_if_valid revoke_checked
    revoke_lem now cookie expected c r full valid = rw (full, valid)

    -- After a logout with two valid cookies, whatever the database does, neither token is accepted
    -- again, at any moment but those of the last second before the token's expiry.
    pub logout_revokes :
        (now t : ℕ) (request : LogoutRequest) (user : User) (s : Session) (r : State) (a b : String)
        (c d : TokenClaims)
        → request.access_cookie ≡ some a
        → request.refresh_cookie ≡ some b
        → (str_eq (p.strip a) "" ≡ false)
        → (str_eq (p.strip b) "" ≡ false)
        → validate_token redis jwt settings now (p.strip a) access r ≡ claims_of c
        → validate_token redis jwt settings now (p.strip b) refresh r ≡ claims_of d
        → token_blocklist_key c.jti ≢ token_blocklist_key d.jti
        → now ≤ t
        → (t + second ≤ c.exp * second) ⊎ (c.exp * second ≤ t)
        → (t + second ≤ d.exp * second) ⊎ (d.exp * second ≤ t)
        → let r' = (logout redis jwt settings p now request user s r).2 in
          ((x : TokenClaims)
            → validate_token redis jwt settings t (p.strip a) access r' ≢ claims_of x)
          × ((x : TokenClaims)
              → validate_token redis jwt settings t (p.strip b) refresh r' ≢ claims_of x)
    unfolding logout
    logout_revokes now t request user s r a b c d ha hb full_a full_b valid_a valid_b other later
          moment_a moment_b =
        let r1 = (blocklist_token redis now c "logout" false r).1 in
        let decoded_a = validated_decode now (p.strip a) access c r valid_a in
        let decoded_b = validated_decode now (p.strip b) refresh d r valid_b in
        let valid_b' =
          after_other now now (p.strip b) refresh c d r decoded_b (λ e. other (sym e)) ∙ valid_b in
        let revoked_a = revoke_lem now a access c r full_a valid_a in
        let revoked_b = revoke_lem now b refresh d r1 full_b valid_b' in
        rw (ha, hb, revoked_a, revoked_b)
          ((
            λ x. still_rejected now t (p.strip a) access d c x r1 decoded_a other (λ y.
                blocklisted_is_rejected redis jwt settings now t (p.strip a) "logout" c access false
                  r decoded_a
                  (redis.set_always now (token_blocklist_key c.jti) "logout"
                    (seconds_until c.exp now) r)
                  later moment_a y),
            λ x.
                blocklisted_is_rejected redis jwt settings now t (p.strip b) "logout" d refresh
                  false r1 decoded_b
                  (redis.set_always now (token_blocklist_key d.jti) "logout"
                    (seconds_until d.exp now) r1)
                  later moment_b x,
          ))
