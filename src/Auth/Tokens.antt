-- ===== src/Auth/Tokens.antt =====
-- JWT claims, their validation and the blocklist of backend/app/core/security.py.
pub mod Revocation
pub mod Plain
pub mod Decoding
use Prim.Native.String.{◌++◌ as text_append}
use Prim.Native.Nat.{max}
use text.Mathlib.Text.{◌==◌ as str_eq}
use attendence_v.Prelude.{
  ◌≤◌, ℕ, ◌+◌, ◌*◌, ◌-◌, ◌/◌, ◌<◌, ◌≡◌, String, Bool, true, false, not, Option, none, some,
  if◌then◌else◌,
}
use attendence_v.Storage.Models.{UserRole}
use attendence_v.Redis.{Redis, second}

pub data TokenType : Type 0 where
  access refresh : TokenType

-- `exp` and `iat` are whole seconds, as in a JWT.
pub record TokenClaims : Type 0 where
  pub sub : ℕ
  pub jti : String
  pub token_type : TokenType
  pub exp : ℕ
  pub iat : ℕ
  pub iss : String
  pub aud : String
  pub role : UserRole

pub record SecuritySettings : Type 0 where
  pub jwt_issuer : String
  pub jwt_audience : String
  pub access_token_ttl_minutes : ℕ
  pub refresh_token_ttl_days : ℕ

-- What the code relies on of PyJWT with the configured key, where `decode` is given an audience and
-- an issuer, and of Pydantic for the shape of the claims: a token decodes for the audience and the
-- issuer that it was made for, from its `iat` until it expires, and at no moment after that.
pub record Jwt : Type 0 where
  pub encode : TokenClaims → String
  pub decode : ℕ → String → String → String → Option TokenClaims
  pub decode-encode :
      (t : ℕ) (c : TokenClaims)
      → c.iat * second ≤ t
      → t < c.exp * second
      → decode t c.aud c.iss (encode c) ≡ some c
  pub decode_unexpired :
      (t : ℕ) (audience issuer token : String) (c : TokenClaims)
      → decode t audience issuer token ≡ some c
      → t < c.exp * second
  pub decode_same :
      (t t' : ℕ) (audience issuer token : String) (c c' : TokenClaims)
      → decode t audience issuer token ≡ some c
      → decode t' audience issuer token ≡ some c'
      → c' ≡ c

-- `InvalidTokenError`, `TokenTypeError`, `TokenRevokedError`
pub data SecurityError : Type 0 where
  invalid_token token_type_error token_revoked : SecurityError

pub data Checked : Type 0 where
  claims_of : TokenClaims → Checked
  rejected : SecurityError → Checked

unfoldable pub same_type : TokenType → TokenType → Bool
same_type access access = true
same_type refresh refresh = true
same_type a b = false

-- `_build_claims`; `now` in microseconds, the lifetime in seconds.
unfoldable pub build_claims :
    SecuritySettings → ℕ → UserRole → TokenType → ℕ → String → ℕ → TokenClaims
build_claims settings subject role token_type lifetime jti now = record {
  sub = subject;
  jti = jti;
  token_type = token_type;
  exp = (now + lifetime * second) / second;
  iat = now / second;
  iss = settings.jwt_issuer;
  aud = settings.jwt_audience;
  role = role;
}

module _ (jwt : Jwt) where
  unfoldable pub create_access_token :
      SecuritySettings → ℕ → UserRole → String → ℕ → String × TokenClaims
  create_access_token settings subject role jti now =
      let claims =
        build_claims settings subject role access (settings.access_token_ttl_minutes * 60) jti
          now in
      (jwt.encode claims, claims)

  unfoldable pub create_refresh_token :
      SecuritySettings → ℕ → UserRole → String → ℕ → String × TokenClaims
  create_refresh_token settings subject role jti now =
      let claims =
        build_claims settings subject role refresh
          (settings.refresh_token_ttl_days * (24 * 60 * 60)) jti now in
      (jwt.encode claims, claims)

-- The `min_length` of `jti`.
unfoldable pub check_schema : Option TokenClaims → Option TokenClaims
check_schema none = none
check_schema (some claims) = if str_eq claims.jti "" then none else some claims

-- `decode_token`, with none for InvalidTokenError.
unfoldable pub decode_token : Jwt → SecuritySettings → ℕ → String → Option TokenClaims
unfolding check_schema
decode_token jwt settings now token =
    check_schema (jwt.decode now settings.jwt_audience settings.jwt_issuer token)

unfoldable pub token_blocklist_key : String → String
token_blocklist_key jti = text_append "auth:blocklist:" jti

-- `max(int((expires_at - now).total_seconds()), 1)`, also `_seconds_until` of the cookies.
unfoldable pub seconds_until : ℕ → ℕ → ℕ
seconds_until exp now = max ((exp * second - now) / second) 1

module _ (redis : Redis) where
  open redis use {State}

  unfoldable pub blocklist_token : ℕ → TokenClaims → String → Bool → State → Bool × State
  blocklist_token now claims reason only_if_absent r =
      let (set, r') =
        redis.set now (token_blocklist_key claims.jti) reason (seconds_until claims.exp now)
          only_if_absent r in
      (if only_if_absent then set else true, r')

  unfoldable pub is_token_blocklisted : ℕ → String → State → Bool
  is_token_blocklisted now jti r = redis.exists now (token_blocklist_key jti) r

  unfoldable pub check_claims : ℕ → TokenType → Option TokenClaims → State → Checked
  check_claims now expected none r = rejected invalid_token
  check_claims now expected (some claims) r =
      if not (same_type claims.token_type expected)
      then rejected token_type_error
      else if is_token_blocklisted now claims.jti r
      then rejected token_revoked
      else claims_of claims

  -- `validate_token`
  unfoldable pub validate_token : Jwt → SecuritySettings → ℕ → String → TokenType → State → Checked
  unfolding check_claims
  validate_token jwt settings now token expected r =
      check_claims now expected (decode_token jwt settings now token) r
