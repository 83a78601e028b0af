-- ===== src/Auth/Refresh/SingleUse.antt =====
-- A refresh token is used once, also by requests that overlap, and a replay leaves evidence.
use attendence_v.Prelude.{
  ℕ, ◌+◌, ◌*◌, ◌≤◌, ◌<◌, ◌≡◌, ◌≢◌, ◌⊎◌, refl, sym, subst, String, true, false, some, arith,
}
use attendence_v.Storage.{Session, Platform, database, http, Result, ok, raised, commit}
use attendence_v.Storage.Models.{User}
use attendence_v.Audit.Policy.{with_row, emit_with_policy_lem}
use attendence_v.Redis.{Redis, second}
use attendence_v.Auth.Tokens.{
  TokenType, decode_token, TokenClaims, SecuritySettings, Jwt, claims_of, refresh,
  token_blocklist_key, seconds_until, blocklist_token, validate_token,
}
use attendence_v.Auth.Tokens.Revocation.{blocklisted_is_rejected}
use attendence_v.Auth.Replies.{SessionResponse, open_session, reuse_event}
use attendence_v.Auth.Refresh.{
  record_reuse, admit, check_validated, check_user, reject, lose, rotate, refresh_session,
}

module _ (redis : Redis) (jwt : Jwt) (p : Platform) (settings : SecuritySettings) where
  open redis use {State}

  abbrev pub rotation :
      ℕ
      → String × String
      → TokenClaims × User
      → Session
      → State
      → Result SessionResponse × Session × State
  rotation = rotate redis jwt p settings

  -- The state of Redis after the mark of a rotation.
  abbrev marked : ℕ → TokenClaims → State → State
  marked now claims r =
      (redis.set now (token_blocklist_key claims.jti) "refresh_rotation"
        (seconds_until claims.exp now) true r).1

  rotate_wins :
      (now : ℕ) (jtis : String × String) (a : TokenClaims × User) (s : Session) (r : State)
      → redis.exists now (token_blocklist_key a.0.jti) r ≡ false
      → rotation now jtis a s r ≡ (ok (open_session jwt settings a.1 jtis now), s, marked now a.0 r)
  unfolding rotate blocklist_token
  rotate_wins now jtis a s r free = rw (
      redis.set_free now (token_blocklist_key a.0.jti) "refresh_rotation"
        (seconds_until a.0.exp now) r free)

  rotate_loses :
      (now : ℕ) (jtis : String × String) (a : TokenClaims × User) (s : Session) (r : State)
      → redis.exists now (token_blocklist_key a.0.jti) r ≡ true
      → rotation now jtis a s r
        ≡ ((lose redis jwt p settings a.0 a.1 s).0, (lose redis jwt p settings a.0 a.1 s).1, r)
  unfolding rotate blocklist_token
  rotate_loses now jtis a s r taken = rw (
      redis.set_taken now (token_blocklist_key a.0.jti) "refresh_rotation"
        (seconds_until a.0.exp now) r taken)

  lose_lem :
      (claims : TokenClaims) (user : User) (s : Session)
      → let row = with_row p (reuse_event (some user.id) claims) s in
        (p.accepts row ≡ true
          → p.commits row ≡ true
          → ((lose redis jwt p settings claims user s).0
              ≡ raised (http 401 "Refresh token has already been used."))
            × ((lose redis jwt p settings claims user s).1.committed ≡ row))
        × (p.accepts row ≡ true
            → p.commits row ≡ false
            → ((lose redis jwt p settings claims user s).0 ≡ raised database)
              × ((lose redis jwt p settings claims user s).1.committed ≡ s.committed))
        × (p.accepts row ≡ false
            → ((lose redis jwt p settings claims user s).0 ≡ raised database)
              × ((lose redis jwt p settings claims user s).1.committed ≡ s.committed))
  unfolding lose record_reuse commit
  lose_lem claims user s = (
    ground (arith, emit_with_policy_lem p true (reuse_event (some user.id) claims) s),
    ground (arith, emit_with_policy_lem p true (reuse_event (some user.id) claims) s),
    ground (arith, emit_with_policy_lem p true (reuse_event (some user.id) claims) s),
  )

  mark_holds :
      (now now' : ℕ) (claims : TokenClaims) (r : State)
      → redis.exists now (token_blocklist_key claims.jti) r ≡ false
      → now ≤ now'
      → now' < now + seconds_until claims.exp now * second
      → redis.exists now' (token_blocklist_key claims.jti) (marked now claims r) ≡ true
  mark_holds now now' claims r free later soon =
      redis.set_holds now (token_blocklist_key claims.jti) "refresh_rotation"
        (seconds_until claims.exp now) true r now'
        (redis.set_free now (token_blocklist_key claims.jti) "refresh_rotation"
          (seconds_until claims.exp now) r free)
        later soon

  -- Of two requests that were both let in with one token, the first to rotate gets new tokens and
  -- the other none, as long as the first one's mark stands: if the database takes the row and its
  -- commit, the other is answered 401 and one REFRESH_REUSED row is committed; if it refuses the row
  -- or the commit, the other raises and nothing is committed.
  pub rotate_race :
      (now now' : ℕ) (jtis jtis' : String × String) (a : TokenClaims × User) (s s' : Session)
      (r : State)
      → (redis.exists now (token_blocklist_key a.0.jti) r ≡ false)
      → now ≤ now'
      → now' < now + seconds_until a.0.exp now * second
      → let first = rotation now jtis a s r in
        let other = rotation now' jtis' a s' first.2 in
        (first.0 ≡ ok (open_session jwt settings a.1 jtis now))
        × (other.2 ≡ first.2)
        × (let row = with_row p (reuse_event (some a.1.id) a.0) s' in
            (p.accepts row ≡ true
              → p.commits row ≡ true
              → (other.0 ≡ raised (http 401 "Refresh token has already been used."))
                × (other.1.committed ≡ row))
            × (p.accepts row ≡ true
                → p.commits row ≡ false
                → (other.0 ≡ raised database) × (other.1.committed ≡ s'.committed))
            × (p.accepts row ≡ false
                → (other.0 ≡ raised database) × (other.1.committed ≡ s'.committed)))
  rotate_race now now' jtis jtis' a s s' r free later soon =
      let won = rotate_wins now jtis a s r free in
      let lost =
        rotate_loses now' jtis' a s' (marked now a.0 r)
          (mark_holds now now' a.0 r free later soon) in
      rw (won, lost) ((refl, refl, lose_lem a.0 a.1 s'))

  -- What a refresh that returned has done.
  returned_lem :
      (now : ℕ) (raw : String) (jtis : String × String) (s : Session) (r : State)
      {reply : SessionResponse}
      → (refresh_session redis jwt p settings now (some raw) jtis s r).0 ≡ ok reply
      → (a : TokenClaims × User) × ((admit redis jwt p settings now (some raw) r s).0 ≡ ok a)
        × ((redis.set now
              (token_blocklist_key a.0.jti)
              "refresh_rotation"
              (seconds_until a.0.exp now)
              true
              r).0
            ≡ true)
        × ((refresh_session redis jwt p settings now (some raw) jtis s r).2 ≡ marked now a.0 r)
  unfolding refresh_session rotate blocklist_token lose
  returned_lem now raw jtis s r h = ground arith

  admitted_claims :
      (now : ℕ) (raw : String) (s : Session) (r : State) (a : TokenClaims × User)
      → (admit redis jwt p settings now (some raw) r s).0 ≡ ok a
      → validate_token redis jwt settings now (p.strip raw) refresh r ≡ claims_of a.0
  unfolding admit check_validated reject check_user
  admitted_claims now raw s r a h = ground arith

  marked_is_rejected :
      (now t : ℕ) (token : String) (claims c d : TokenClaims) (r : State)
      → decode_token jwt settings now token ≡ some claims
      → c ≡ claims
      → ((redis.set now
            (token_blocklist_key c.jti)
            "refresh_rotation"
            (seconds_until c.exp now)
            true
            r).0
          ≡ true)
      → now ≤ t
      → (t + second ≤ claims.exp * second) ⊎ (claims.exp * second ≤ t)
      → validate_token redis jwt settings t token refresh (marked now c r) ≢ claims_of d
  unfolding blocklist_token
  marked_is_rejected now t token claims c d r decoded same =
      subst
        (λ x.
          ((redis.set now (token_blocklist_key x.jti) "refresh_rotation" (seconds_until x.exp now)
              true r).0
            ≡ true)
          → now ≤ t
          → (t + second ≤ claims.exp * second) ⊎ (claims.exp * second ≤ t)
          → validate_token redis jwt settings t token refresh (marked now x r) ≢ claims_of d)
        (sym same)
        (λ set later moment.
          blocklisted_is_rejected redis jwt settings now t token "refresh_rotation" claims refresh
            true r decoded set later moment d)

  validated_decodes :
      (now : ℕ) (token : String) (expected : TokenType) (c d : TokenClaims) (r : State)
      → decode_token jwt settings now token ≡ some c
      → validate_token redis jwt settings now token expected r ≡ claims_of d
      → d ≡ c
  unfolding validate_token
  validated_decodes now token expected c d r decoded h = ground arith

  -- A refresh that returned has used its token up: no later refresh with it returns, at any
  -- moment but those of the last second before the token expires.
  pub refresh_single_use :
      (now t : ℕ) (raw : String) (claims : TokenClaims) (jtis jtis' : String × String)
      (s s' : Session) (r : State) {reply reply' : SessionResponse}
      → decode_token jwt settings now (p.strip raw) ≡ some claims
      → (refresh_session redis jwt p settings now (some raw) jtis s r).0 ≡ ok reply
      → now ≤ t
      → (t + second ≤ claims.exp * second) ⊎ (claims.exp * second ≤ t)
      → let r' = (refresh_session redis jwt p settings now (some raw) jtis s r).2 in
        (refresh_session redis jwt p settings t (some raw) jtis' s' r').0 ≢ ok reply'
  refresh_single_use now t raw claims jtis jtis' s s' r {reply} {reply'} decoded first later moment
        again =
      let admitted = returned_lem now raw jtis s r first in
      let same =
        validated_decodes now (p.strip raw) refresh claims admitted.0.0 r decoded
          (admitted_claims now raw s r admitted.0 admitted.1) in
      let r' = (refresh_session redis jwt p settings now (some raw) jtis s r).2 in
      let used = returned_lem t raw jtis' s' r' again in
      marked_is_rejected now t (p.strip raw) claims admitted.0.0 used.0.0 r decoded same admitted.2
        later moment
        (subst
          (λ x. validate_token redis jwt settings t (p.strip raw) refresh x ≡ claims_of used.0.0)
          admitted.3 (admitted_claims t raw s' r' used.0 used.1))
