-- ===== src/Realtime/Tickets/Script.antt =====
-- What the script of `consume_ticket` leaves, and how long an issued ticket is held.
use Prim.Native.String.{◌++◌ as text_append}
use text.Mathlib.Text.{◌==◌ as str_eq}
use attendence_v.Prelude.{
  ℕ, zero, suc, ◌+◌, ◌*◌, ◌≤◌, ◌<◌, ◌≡◌, refl, inl, inr, String, false, none, some, arith,
  if◌then◌else◌, Option-cases,
}
use attendence_v.Storage.{ok, raised, value_error}
use attendence_v.Redis.{second}
use attendence_v.Realtime.Tickets.{
  Tickets, websocket_ticket_key, put_ticket, issue_ticket, take_ticket, consume_ticket,
  consume_script, after_attempt, attempts, ws_ticket_ttl_seconds,
}

module _ (tickets : Tickets) (strip : String → String) where
  open tickets use {State}

  abbrev pub key : String → String
  key ticket = text_append "auth:ws_ticket:" (strip ticket)

  pub consume_lem :
      (t : ℕ) (ticket : String) (s : State)
      → str_eq (strip ticket) "" ≡ false
      → consume_ticket tickets strip t ticket s ≡ (
        ok (consume_script tickets strip t (key ticket) s).0,
        (consume_script tickets strip t (key ticket) s).1,
      )
  unfolding consume_ticket take_ticket websocket_ticket_key
  consume_lem t ticket s full = rw full refl

  -- The script answers what the key holds, and leaves it empty from then on.
  pub script-value :
      (t : ℕ) (k : String) (s : State)
      → (consume_script tickets strip t k s).0 ≡ tickets.holds t k s
  unfolding consume_script
  script-value t k s = elim (Option-cases (tickets.holds t k s)) [
    | inl e ↦ rw e refl
    | inr (v, e) ↦ rw e refl
  ]

  pub script_empties :
      (t t' : ℕ) (k : String) (s : State)
      → t ≤ t'
      → tickets.holds t' k (consume_script tickets strip t k s).1 ≡ none
  unfolding consume_script
  script_empties t t' k s later = elim (Option-cases (tickets.holds t k s)) [
    | inl e ↦ rw e (tickets.gone_stays t t' k s later e)
    | inr (v, e) ↦
        rw e (tickets.gone_stays t t' k (tickets.del t k s) later (tickets.del_gone t k s))
  ]

  pub script_keeps_absent :
      (t t' : ℕ) (k j : String) (s : State)
      → tickets.holds t' k s ≡ none
      → tickets.holds t' k (consume_script tickets strip t j s).1 ≡ none
  unfolding consume_script
  script_keeps_absent t t' k j s h = elim (Option-cases (tickets.holds t j s)) [
    | inl e ↦ rw e h
    | inr (v, e) ↦ rw e (tickets.del_absent t t' k j s h)
  ]

  issue_lem :
      (t : ℕ) (ticket payload : String) (s : State)
      → let put = tickets.put t (key ticket) payload ws_ticket_ttl_seconds s in
        issue_ticket tickets strip t ticket payload ws_ticket_ttl_seconds s ≡ (
          if str_eq (strip ticket) ""
          then (raised (value_error "Ticket value must not be blank."), s)
          else (ok put.0, put.1))
  unfolding issue_ticket put_ticket websocket_ticket_key
  issue_lem t ticket payload s = ground arith

  -- A ticket that the loop returned is stored with the payload, for as long as it lives.
  pub attempts_hold :
      (t t' : ℕ) (fresh : ℕ → String) (payload : String) (n : ℕ) (s : State) {ticket : String}
      → t ≤ t'
      → t' < t + ws_ticket_ttl_seconds * second
      → (attempts tickets strip t fresh payload n s).0 ≡ ok ticket
      → (str_eq (strip ticket) "" ≡ false)
        × (tickets.holds t' (key ticket) (attempts tickets strip t fresh payload n s).1
            ≡ some payload)
  unfolding attempts after_attempt
  attempts_hold t t' fresh payload zero s later soon h = ground arith
  attempts_hold t t' fresh payload (suc n) s {ticket} later soon h =
      let put = tickets.put t (key (fresh n)) payload ws_ticket_ttl_seconds s in
      ground (
        arith,
        issue_lem t (fresh n) payload s,
        tickets.put_holds t t' (key (fresh n)) payload ws_ticket_ttl_seconds s,
        attempts_hold t t' fresh payload n put.1 {ticket = ticket} later soon,
      )
