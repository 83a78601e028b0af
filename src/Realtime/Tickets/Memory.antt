-- ===== src/Realtime/Tickets/Memory.antt =====
-- Tickets in a list with their moments of expiry: an instance that shows that the laws can hold.
use text.Mathlib.Text.{◌==◌ as str_eq}
use text.Mathlib.TextPositions.{eq_refl}
use attendence_v.Prelude.{
  ℕ, ◌+◌, ◌*◌, ◌≤◌, ◌<◌, ◌≡◌, refl, String, Bool, true, false, Option, none, some, List, [], ◌∷◌,
  arith, ltb, if◌then◌else◌,
}
use attendence_v.Redis.{second}
use attendence_v.Realtime.Tickets.{Tickets}

-- A key with its value and the moment of its expiry; the first entry of a key counts.
pub record Ticket : Type 0 where
  pub key : String
  pub value : String
  pub until : ℕ

abbrev pub held : ℕ → String → List Ticket → Option String
held t k [] = none
held t k (e ∷ s) =
    if str_eq e.key k then (if ltb t e.until then some e.value else none) else held t k s

abbrev pub store : ℕ → String → String → ℕ → List Ticket → Option String → Bool × List Ticket
store t k v ttl s none = (true, record { key = k; value = v; until = t + ttl * second } ∷ s)
store t k v ttl s (some w) = (false, s)

-- Deleting covers the key by an entry that has expired.
abbrev pub cover : String → List Ticket → List Ticket
cover k s = record { key = k; value = ""; until = 0 } ∷ s

module _ (t : ℕ) (k : String) where
  pub cover_gone : (s : List Ticket) → held t k (cover k s) ≡ none
  cover_gone s = ground (arith, eq_refl k)

  pub cover_absent :
      (j : String) (s : List Ticket) → held t k s ≡ none → held t k (cover j s) ≡ none
  cover_absent j s h = ground (arith, h)

  pub held_later : (t' : ℕ) (s : List Ticket) → t ≤ t' → held t k s ≡ none → held t' k s ≡ none
  held_later t' [] later h = refl
  held_later t' (e ∷ s) later h = ground (arith, h, held_later t' s later)

  pub store_free :
      (v : String) (ttl : ℕ) (s : List Ticket)
      → held t k s ≡ none
      → (store t k v ttl s (held t k s)).0 ≡ true
  store_free v ttl s h = rw h refl

  pub store_taken :
      (v w : String) (ttl : ℕ) (s : List Ticket)
      → held t k s ≡ some w
      → store t k v ttl s (held t k s) ≡ (false, s)
  store_taken v w ttl s h = rw h refl

  pub store_holds :
      (t' : ℕ) (v : String) (ttl : ℕ) (s : List Ticket)
      → (store t k v ttl s (held t k s)).0 ≡ true
      → t ≤ t'
      → t' < t + ttl * second
      → held t' k (store t k v ttl s (held t k s)).1 ≡ some v
  store_holds t' v ttl s won later soon = ground (arith, eq_refl k)

abbrev pub memory_tickets : Tickets
memory_tickets = record {
  State = List Ticket;
  holds = held;
  put = λ t k v ttl s. store t k v ttl s (held t k s);
  del = λ t k s. cover k s;
  del_gone = λ t k s. cover_gone t k s;
  del_absent = λ t t' k j s h. cover_absent t' k j s h;
  gone_stays = λ t t' k s later h. held_later t k t' s later h;
  put_free = λ t k v ttl s h. store_free t k v ttl s h;
  put_taken = λ t k v w ttl s h. store_taken t k v w ttl s h;
  put_holds = λ t t' k v ttl s won later soon. store_holds t k t' v ttl s won later soon;
}
