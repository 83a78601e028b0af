-- ===== src/Realtime/Limiter/Memory.antt =====
-- Counters in a list with their moments of expiry: an instance that shows that the laws can hold.
use text.Mathlib.Text.{◌==◌ as str_eq}
use text.Mathlib.TextEquality.{eq_iff}
use text.Mathlib.TextPositions.{eq_refl}
use attendence_v.Prelude.{
  ℕ, ◌+◌, ◌*◌, ◌<◌, ◌≡◌, ◌≢◌, refl, ap, String, Bool, true, false, Option, none, some, List, [],
  ◌∷◌, arith, ltb, if◌then◌else◌,
}
use attendence_v.Redis.{second}
use attendence_v.Realtime.Limiter.{Counters}
use attendence_v.Realtime.Integer.{ℤ, pos, suc_int, pred_int}

-- A key with its value and, if it has one, the moment at which it expires; the first entry counts.
pub record Entry : Type 0 where
  pub key : String
  pub value : ℤ
  pub until : Option ℕ

abbrev pub is_live : ℕ → Option ℕ → Bool
is_live t none = true
is_live t (some until) = ltb t until

abbrev pub lookup : ℕ → String → List Entry → Option Entry
lookup t k [] = none
lookup t k (e ∷ s) =
    if str_eq e.key k then (if is_live t e.until then some e else none) else lookup t k s

abbrev pub value_of : Option Entry → ℤ
value_of none = pos 0
value_of (some e) = e.value

abbrev pub until_of : Option Entry → Option ℕ
until_of none = none
until_of (some e) = e.until

abbrev pub is_there : Option Entry → Bool
is_there none = false
is_there (some e) = true

abbrev pub put_entry : ℕ → String → ℤ → List Entry → List Entry
put_entry t k z s = record { key = k; value = z; until = until_of (lookup t k s) } ∷ s

abbrev pub set_expiry : ℕ → String → ℕ → List Entry → Option Entry → List Entry
set_expiry t k ttl s none = s
set_expiry t k ttl s (some e) =
    record { key = k; value = e.value; until = some (t + ttl * second) } ∷ s

lookup_live : (t : ℕ) (k : String) (s : List Entry) → is_live t (until_of (lookup t k s)) ≡ true
lookup_live t k [] = refl
lookup_live t k (e ∷ s) = ground (arith, lookup_live t k s)

pub lookup-put_entry :
    (t : ℕ) (k : String) (z : ℤ) (s : List Entry)
    → lookup t k (put_entry t k z s)
      ≡ some (record { key = k; value = z; until = until_of (lookup t k s) })
lookup-put_entry t k z s = ground (arith, eq_refl k, lookup_live t k s)

pub lookup_other :
    (t : ℕ) (k j : String) (e : Entry) (s : List Entry)
    → e.key ≡ k
    → j ≢ k
    → lookup t j (e ∷ s) ≡ lookup t j s
lookup_other t k j e s h other = ground (arith, eq_iff e.key j)

module _ (t : ℕ) (k : String) where
  pub missing : (s : List Entry) → is_there (lookup t k s) ≡ false → value_of (lookup t k s) ≡ pos 0
  missing s h = ground arith

  pub written_value : (z : ℤ) (s : List Entry) → value_of (lookup t k (put_entry t k z s)) ≡ z
  written_value z s = rw (lookup-put_entry t k z s) refl

  pub written_there : (z : ℤ) (s : List Entry) → is_there (lookup t k (put_entry t k z s)) ≡ true
  written_there z s = rw (lookup-put_entry t k z s) refl

  pub written_other :
      (j : String) (z : ℤ) (s : List Entry) → j ≢ k → lookup t j (put_entry t k z s) ≡ lookup t j s
  written_other j z s other =
      lookup_other t k j (record { key = k; value = z; until = until_of (lookup t k s) }) s refl
        other

  pub expiry_same :
      (j : String) (ttl : ℕ) (s : List Entry)
      → 0 < ttl
      → (value_of (lookup t j (set_expiry t k ttl s (lookup t k s))) ≡ value_of (lookup t j s))
        × (is_there (lookup t j (set_expiry t k ttl s (lookup t k s))) ≡ is_there (lookup t j s))
  expiry_same j ttl s lasting = (ground (arith, eq_iff k j), ground (arith, eq_iff k j))

abbrev pub memory_counters : Counters
memory_counters = record {
  State = List Entry;
  count = λ t k s. value_of (lookup t k s);
  exists = λ t k s. is_there (lookup t k s);
  incr = λ t k s.
      (suc_int (value_of (lookup t k s)), put_entry t k (suc_int (value_of (lookup t k s))) s);
  decr = λ t k s. put_entry t k (pred_int (value_of (lookup t k s))) s;
  expire = λ t k ttl s. set_expiry t k ttl s (lookup t k s);
  count_missing = missing;
  incr_value = λ t k s. refl;
  incr_count = λ t k s. written_value t k (suc_int (value_of (lookup t k s))) s;
  incr_exists = λ t k s. written_there t k (suc_int (value_of (lookup t k s))) s;
  incr_other = λ t k j s other. (
    ap value_of (written_other t k j (suc_int (value_of (lookup t k s))) s other),
    ap is_there (written_other t k j (suc_int (value_of (lookup t k s))) s other),
  );
  decr_count = λ t k s. written_value t k (pred_int (value_of (lookup t k s))) s;
  decr_other = λ t k j s other.
      ap value_of (written_other t k j (pred_int (value_of (lookup t k s))) s other);
  expire_same = λ t k j ttl s lasting. expiry_same t k j ttl s lasting;
}
