-- ===== src/Auth/Tokens/Revocation.antt =====
-- How long a revocation holds against how long the token is valid.
use attendence_v.Prelude.{
  Option-cases, ◌⊎◌, inl, inr, ℕ, ◌+◌, ◌*◌, ◌≤◌, ◌<◌, ◌≡◌, ◌≢◌, String, Bool, true, some, arith,
  ◌⊎◌, inl, inr,
}
use attendence_v.Redis.{Redis, second}
use attendence_v.Auth.Tokens.Decoding.{decode_token_unexpired, decode_token_same}
use attendence_v.Auth.Tokens.{
  TokenType, decode_token, TokenClaims, SecuritySettings, Jwt, claims_of, token_blocklist_key,
  seconds_until, blocklist_token, is_token_blocklisted, validate_token,
}

-- Cutting the time left to whole seconds loses less than one second.
ttl_covers :
    (now t exp : ℕ) → now ≤ t → t + second ≤ exp * second → t < now + seconds_until exp now * second
unfolding seconds_until
ttl_covers now t exp later before = omega arith

module _ (redis : Redis) (jwt : Jwt) (settings : SecuritySettings) where
  open redis use {State}

  -- A token that was put on the blocklist is rejected at every later moment but those of the last
  -- second before it expires.
  pub blocklisted_is_rejected :
      (now t : ℕ) (token reason : String) (claims : TokenClaims) (expected : TokenType) (nx : Bool)
      (r : State)
      → decode_token jwt settings now token ≡ some claims
      → (redis.set now
          (token_blocklist_key claims.jti)
          reason
          (seconds_until claims.exp now)
          nx
          r).0
        ≡ true
      → now ≤ t
      → (t + second ≤ claims.exp * second) ⊎ (claims.exp * second ≤ t)
      → (c : TokenClaims)
      → validate_token redis jwt settings t token expected
          (blocklist_token redis now claims reason nx r).1
        ≢ claims_of c
  unfolding validate_token blocklist_token is_token_blocklisted
  blocklisted_is_rejected now t token reason claims expected nx r decoded set later moment c h =
      elim (Option-cases (decode_token jwt settings t token)) [
        | inl gone ↦ ground (arith)
        | inr (c', e) ↦ ground (
          arith,
          decode_token_same jwt settings now t token claims c' decoded e,
          decode_token_unexpired jwt settings t token c' e,
          redis.set_holds now (token_blocklist_key claims.jti) reason (seconds_until claims.exp now)
              nx r t set later,
          ttl_covers now t claims.exp later,
        )
      ]
