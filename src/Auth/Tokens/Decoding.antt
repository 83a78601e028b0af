-- ===== src/Auth/Tokens/Decoding.antt =====
-- When a token decodes, and to what.
use text.Mathlib.Text.{◌==◌ as str_eq}
use attendence_v.Prelude.{
  ℕ, ◌*◌, ◌≤◌, ◌<◌, ◌≡◌, refl, subst, String, false, Option, none, some, arith,
}
use attendence_v.Redis.{second}
use attendence_v.Auth.Tokens.{TokenClaims, SecuritySettings, Jwt, check_schema, decode_token}

check_schema-some :
    (o : Option TokenClaims) (c : TokenClaims) → check_schema o ≡ some c → o ≡ some c
unfolding check_schema
check_schema-some none c h = h
check_schema-some (some x) c h = ground arith

module _ (jwt : Jwt) (settings : SecuritySettings) where
  -- A token of this audience and issuer decodes between its two moments.
  pub decode_token-encode :
      (t : ℕ) (c : TokenClaims)
      → c.aud ≡ settings.jwt_audience
      → c.iss ≡ settings.jwt_issuer
      → str_eq c.jti "" ≡ false
      → c.iat * second ≤ t
      → t < c.exp * second
      → decode_token jwt settings t (jwt.encode c) ≡ some c
  unfolding decode_token check_schema
  decode_token-encode t c audience issuer named begun early =
      rw
        (
          subst (λ i. jwt.decode t settings.jwt_audience i (jwt.encode c) ≡ some c) issuer
              (subst (λ a. jwt.decode t a c.iss (jwt.encode c) ≡ some c) audience
                (jwt.decode-encode t c begun early)),
          named,
        )
        refl

  pub decode_token_unexpired :
      (t : ℕ) (token : String) (c : TokenClaims)
      → decode_token jwt settings t token ≡ some c
      → t < c.exp * second
  unfolding decode_token
  decode_token_unexpired t token c h =
      jwt.decode_unexpired t settings.jwt_audience settings.jwt_issuer token c
        (check_schema-some _ c h)

  pub decode_token_same :
      (t t' : ℕ) (token : String) (c c' : TokenClaims)
      → decode_token jwt settings t token ≡ some c
      → decode_token jwt settings t' token ≡ some c'
      → c' ≡ c
  unfolding decode_token
  decode_token_same t t' token c c' h h' =
      jwt.decode_same t t' settings.jwt_audience settings.jwt_issuer token c c'
        (check_schema-some _ c h) (check_schema-some _ c' h')
