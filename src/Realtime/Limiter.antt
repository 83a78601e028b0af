-- ===== src/Realtime/Limiter.antt =====
-- `RealtimeConnectionLimiter`: a cap per user and a cap on the total, in Redis counters.
pub mod Caps
pub mod Memory
use Prim.Native.String.{◌++◌ as text_append}
use attendence_v.Prelude.{ℕ, ◌<◌, ◌≡◌, ◌≢◌, String, Bool, true, false, if◌then◌else◌}
use attendence_v.Realtime.Integer.{ℤ, pos, suc_int, pred_int, above}

-- What the limiter relies on of Redis. `count` is what a counter reads at a moment, 0 if there is
-- no key or it has expired; `expire` is called with a positive time only.
pub record Counters : Type 1 where
  pub State : Type 0
  pub count : ℕ → String → State → ℤ
  pub exists : ℕ → String → State → Bool
  pub incr : ℕ → String → State → ℤ × State
  pub decr : ℕ → String → State → State
  pub expire : ℕ → String → ℕ → State → State
  pub count_missing : (t : ℕ) (k : String) (s : State) → exists t k s ≡ false → count t k s ≡ pos 0
  pub incr_value : (t : ℕ) (k : String) (s : State) → (incr t k s).0 ≡ suc_int (count t k s)
  pub incr_count :
      (t : ℕ) (k : String) (s : State) → count t k (incr t k s).1 ≡ suc_int (count t k s)
  pub incr_exists : (t : ℕ) (k : String) (s : State) → exists t k (incr t k s).1 ≡ true
  pub incr_other :
      (t : ℕ) (k j : String) (s : State)
      → j ≢ k
      → (count t j (incr t k s).1 ≡ count t j s) × (exists t j (incr t k s).1 ≡ exists t j s)
  pub decr_count :
      (t : ℕ) (k : String) (s : State) → count t k (decr t k s) ≡ pred_int (count t k s)
  pub decr_other : (t : ℕ) (k j : String) (s : State) → j ≢ k → count t j (decr t k s) ≡ count t j s
  pub expire_same :
      (t : ℕ) (k j : String) (ttl : ℕ) (s : State)
      → 0 < ttl
      → (count t j (expire t k ttl s) ≡ count t j s)
        × (exists t j (expire t k ttl s) ≡ exists t j s)

-- The caps and the time to live that the environment gives.
pub record Limits : Type 0 where
  pub per_user_cap : ℕ
  pub total_cap : ℕ
  pub ttl_seconds : ℕ

abbrev pub total_key : String
total_key = "ws:total"

abbrev pub per_user_key : String → String
per_user_key user_id = text_append "ws:user:" user_id

module _ (counters : Counters) (limits : Limits) where
  open counters use {State}

  -- The part after the per-user counter has room.
  unfoldable pub acquire_total : ℕ → String → State → Bool × State
  acquire_total t user_id s =
      let s1 = counters.expire t (per_user_key user_id) limits.ttl_seconds s in
      let (existing_total, s2) = counters.incr t total_key s1 in
      if above existing_total limits.total_cap
      then (false, counters.decr t (per_user_key user_id) (counters.decr t total_key s2))
      else (true, counters.expire t total_key limits.ttl_seconds s2)

  -- The calls of one attempt are made under the lock, and taken at one moment.
  unfoldable pub try_acquire : ℕ → String → State → Bool × State
  try_acquire t user_id s =
      let (existing_user, s1) = counters.incr t (per_user_key user_id) s in
      if above existing_user limits.per_user_cap
      then (false, counters.decr t (per_user_key user_id) s1)
      else acquire_total t user_id s1

  unfoldable pub release : ℕ → String → State → State
  release t user_id s =
      let s1 =
        if counters.exists t (per_user_key user_id) s
        then counters.decr t (per_user_key user_id) s
        else s in
      counters.decr t total_key s1
