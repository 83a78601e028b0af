-- ===== src/Redis/Memory.antt =====
-- A list of keys with their moments of expiry: an instance that shows that the laws can hold.
use text.Mathlib.Text.{◌==◌ as str_eq}
use text.Mathlib.TextEquality.{eq_iff}
use text.Mathlib.TextPositions.{eq_refl}
use attendence_v.Prelude.{
  ℕ, ◌+◌, ◌*◌, ◌≤◌, ◌<◌, ◌≡◌, ◌≢◌, refl, String, Bool, true, false, ◌&&◌, List, [], ◌∷◌, arith, ltb,
  if◌then◌else◌,
}
use attendence_v.Redis.{Redis, second}

-- The newest entry of a key counts.
abbrev pub live : ℕ → String → List (String × ℕ) → Bool
live t k [] = false
live t k ((j, until) ∷ s) = if str_eq j k then ltb t until else live t k s

abbrev pub put : ℕ → String → String → ℕ → Bool → List (String × ℕ) → Bool × List (String × ℕ)
put t k v ttl nx s = if nx && live t k s then (false, s) else (true, (k, t + ttl * second) ∷ s)

module _ (t : ℕ) (k v : String) (ttl : ℕ) where
  pub put_taken : (s : List (String × ℕ)) → live t k s ≡ true → put t k v ttl true s ≡ (false, s)
  put_taken s h = rw h

  pub put_free : (s : List (String × ℕ)) → live t k s ≡ false → (put t k v ttl true s).0 ≡ true
  put_free s h = rw h

  pub put_holds :
      (nx : Bool) (s : List (String × ℕ)) (t' : ℕ)
      → (put t k v ttl nx s).0 ≡ true
      → t ≤ t'
      → t' < t + ttl * second
      → live t' k (put t k v ttl nx s).1 ≡ true
  put_holds nx s t' h a b = ground (arith, eq_refl k)

  pub put_expires :
      (nx : Bool) (s : List (String × ℕ)) (t' : ℕ)
      → (put t k v ttl nx s).0 ≡ true
      → t + ttl * second ≤ t'
      → live t' k (put t k v ttl nx s).1 ≡ false
  put_expires nx s t' h a = ground (arith, eq_refl k)

  pub put_other :
      (nx : Bool) (s : List (String × ℕ)) (t' : ℕ) (j : String)
      → j ≢ k
      → live t' j (put t k v ttl nx s).1 ≡ live t' j s
  put_other nx s t' j h = ground (arith, eq_iff k j)

abbrev pub memory : Redis
memory = record {
  State = List (String × ℕ);
  exists = live;
  set = put;
  set_taken = put_taken;
  set_free = put_free;
  set_always = λ t k v ttl s. refl;
  set_holds = put_holds;
  set_expires = put_expires;
  set_other = put_other;
}
