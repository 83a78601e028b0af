-- ===== src/Redis.antt =====
-- What the backend relies on of Redis: keys with an expiry, set with SET … EX … [NX]. A moment is
-- a number of microseconds, a time to live a number of seconds.
pub mod Memory
use attendence_v.Prelude.{ℕ, ◌+◌, ◌*◌, ◌≤◌, ◌<◌, ◌≡◌, ◌≢◌, String, Bool, true, false}

abbrev pub second : ℕ
second = 1000000

pub record Redis : Type 1 where
  pub State : Type 0
  -- `EXISTS key` at a moment.
  pub exists : ℕ → String → State → Bool
  -- `SET key value EX ttl`, with NX or not; the answer is whether it was set.
  pub set : ℕ → String → String → ℕ → Bool → State → Bool × State
  pub set_taken :
      (t : ℕ) (k v : String) (ttl : ℕ) (s : State)
      → exists t k s ≡ true
      → set t k v ttl true s ≡ (false, s)
  pub set_free :
      (t : ℕ) (k v : String) (ttl : ℕ) (s : State)
      → exists t k s ≡ false
      → (set t k v ttl true s).0 ≡ true
  pub set_always : (t : ℕ) (k v : String) (ttl : ℕ) (s : State) → (set t k v ttl false s).0 ≡ true
  pub set_holds :
      (t : ℕ) (k v : String) (ttl : ℕ) (nx : Bool) (s : State) (t' : ℕ)
      → (set t k v ttl nx s).0 ≡ true
      → t ≤ t'
      → t' < t + ttl * second
      → exists t' k (set t k v ttl nx s).1 ≡ true
  pub set_expires :
      (t : ℕ) (k v : String) (ttl : ℕ) (nx : Bool) (s : State) (t' : ℕ)
      → (set t k v ttl nx s).0 ≡ true
      → t + ttl * second ≤ t'
      → exists t' k (set t k v ttl nx s).1 ≡ false
  pub set_other :
      (t : ℕ) (k v : String) (ttl : ℕ) (nx : Bool) (s : State) (t' : ℕ) (j : String)
      → j ≢ k
      → exists t' j (set t k v ttl nx s).1 ≡ exists t' j s
