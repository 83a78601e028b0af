-- ===== src/Realtime/Admission/Once.antt =====
-- A ticket opens at most one stream, and a fresh one opens it for its user.
use text.Mathlib.Text.{◌==◌ as str_eq}
use attendence_v.Prelude.{
  ℕ, ◌+◌, ◌*◌, ◌≤◌, ◌<◌, ◌≡◌, refl, inl, inr, String, Bool, true, false, Option, none, some, List,
  [], ◌∷◌, sym, subst, Option-cases, Bool-cases,
}
use attendence_v.Storage.{ok}
use attendence_v.Redis.{second}
use attendence_v.Realtime.Limiter.{Counters, Limits, try_acquire}
use attendence_v.Realtime.Tickets.{
  Tickets, consume_script, Texts, ticket_payload, issue_websocket_ticket, ws_ticket_ttl_seconds,
}
use attendence_v.Realtime.Admission.{
  Admission, closed, accepted, admit_acquired, admit_user, admit_consumed, websocket_live,
  get_field, uuid_of, user_of, parse_ticket_user_id,
}
use attendence_v.Realtime.Tickets.Script.{
  key, consume_lem, script-value, script_empties, script_keeps_absent, attempts_hold,
}

-- An attempt to open a stream.
pub record Attempt : Type 0 where
  pub moment : ℕ
  pub available : Bool
  pub ticket : Option String

module _ (texts : Texts) where
  parse-payload :
      (tickets : Tickets) (strip : String → String) (user t : ℕ)
      → parse_ticket_user_id texts (ticket_payload tickets strip texts user t) ≡ some user
  unfolding parse_ticket_user_id user_of get_field uuid_of ticket_payload
  parse-payload tickets strip user t =
      rw
        (
          texts.loads-dumps
              (("user_id", texts.uuid_text user) ∷ ("issued_at", texts.iso_moment t) ∷ []),
          texts.parse_uuid-text user,
        )
        refl

module _ (tickets : Tickets) (counters : Counters) (limits : Limits) (strip : String → String)
    (texts : Texts) where
  abbrev live :
      ℕ
      → Bool
      → Option String
      → tickets.State × counters.State
      → Admission × tickets.State × counters.State
  live = websocket_live tickets counters limits strip texts

  -- The states of Redis after an attempt.
  abbrev pub left_by : Admission × tickets.State × counters.State → tickets.State × counters.State
  left_by (a, ts, cs) = (ts, cs)

  -- Attempts after one another.
  abbrev pub after_attempts :
      List Attempt → tickets.State × counters.State → tickets.State × counters.State
  after_attempts [] s = s
  after_attempts (a ∷ rest) s =
      after_attempts rest (
        left_by
          (websocket_live tickets counters limits strip texts a.moment a.available a.ticket s))

  consumed-state :
      (t : ℕ) (available : Bool) (cs : counters.State) (o : Option String) (ts : tickets.State)
      → (admit_consumed tickets counters limits strip texts t available cs (ok o, ts)).1 ≡ ts
  unfolding admit_consumed admit_user
  consumed-state t available cs none ts = refl
  consumed-state t available cs (some payload) ts =
      elim (Option-cases (parse_ticket_user_id texts payload)) [
        | inl f ↦ rw f refl
        | inr (user, f) ↦ (elim (Bool-cases available) [
          | inl g ↦ rw (f, g) refl
          | inr g ↦ rw (f, g) refl
        ])
      ]

  live_takes :
      (t : ℕ) (available : Bool) (ticket : String) (s : tickets.State × counters.State)
      → str_eq (strip ticket) "" ≡ false
      → (live t available (some ticket) s).1
        ≡ (consume_script tickets strip t (key tickets strip ticket) s.0).1
  unfolding websocket_live
  live_takes t available ticket (ts, cs) full =
      let k = key tickets strip ticket in
      rw (full, consume_lem tickets strip t ticket ts full)
        (consumed-state t available cs (consume_script tickets strip t k ts).0
          (consume_script tickets strip t k ts).1)

  live_keeps_absent :
      (t t' : ℕ) (k : String) (available : Bool) (ticket : Option String)
      (s : tickets.State × counters.State)
      → tickets.holds t' k s.0 ≡ none
      → tickets.holds t' k (live t available ticket s).1 ≡ none
  unfolding websocket_live
  live_keeps_absent t t' k available none (ts, cs) h = h
  live_keeps_absent t t' k available (some ticket) (ts, cs) h =
      elim (Bool-cases (str_eq (strip ticket) "")) [
        | inl blank ↦ rw blank h
        | inr full ↦
            subst (λ x. tickets.holds t' k x ≡ none)
              (sym (live_takes t available ticket (ts, cs) full))
              (script_keeps_absent tickets strip t t' k (key tickets strip ticket) ts h)
      ]

  attempts_keep_absent :
      (t' : ℕ) (k : String) (others : List Attempt) (s : tickets.State × counters.State)
      → tickets.holds t' k s.0 ≡ none
      → tickets.holds t' k (after_attempts others s).0 ≡ none
  attempts_keep_absent t' k [] s h = h
  attempts_keep_absent t' k (a ∷ others) s h =
      attempts_keep_absent t' k others (left_by (live a.moment a.available a.ticket s))
        (live_keeps_absent a.moment t' k a.available a.ticket s h)

  gone_closes :
      (t : ℕ) (available : Bool) (ticket : String) (s : tickets.State × counters.State)
      → str_eq (strip ticket) "" ≡ false
      → tickets.holds t (key tickets strip ticket) s.0 ≡ none
      → ((live t available (some ticket) s).0
          ≡ closed 1008 "Websocket ticket is invalid or expired.")
        × ((live t available (some ticket) s).2 ≡ s.1)
  unfolding websocket_live admit_consumed
  gone_closes t available ticket (ts, cs) full gone =
      rw
        (
          full,
          consume_lem tickets strip t ticket ts full,
          script-value tickets strip t (key tickets strip ticket) ts,
          gone,
        )
        ((refl, refl))

  -- Whatever became of a first attempt with a ticket that is not blank, and whatever other attempts
  -- follow it, with this ticket or others, any later attempt with it is closed as invalid, and takes
  -- nothing from the limiter.
  pub ticket_opens_once :
      (t t' : ℕ) (available available' : Bool) (ticket : String) (others : List Attempt)
      (s : tickets.State × counters.State)
      → (str_eq (strip ticket) "" ≡ false)
      → t ≤ t'
      → let first =
          websocket_live tickets counters limits strip texts t available (some ticket) s in
        let s' = after_attempts others (left_by first) in
        let again =
          websocket_live tickets counters limits strip texts t' available' (some ticket) s' in
        (again.0 ≡ closed 1008 "Websocket ticket is invalid or expired.") × (again.2 ≡ s'.1)
  ticket_opens_once t t' available available' ticket others s full later =
      let k = key tickets strip ticket in
      let s1 = left_by (live t available (some ticket) s) in
      gone_closes t' available' ticket (after_attempts others s1) full (
        attempts_keep_absent t' k others s1 (
          subst (λ x. tickets.holds t' k x ≡ none) (sym (live_takes t available ticket s full))
            (script_empties tickets strip t t' k s.0 later)))

  -- A ticket that was issued to a user opens a stream for this user within 30 seconds, if the
  -- limiter has room.
  pub issued_ticket_opens :
      (t t' : ℕ) (fresh : ℕ → String) (user : ℕ) (ts : tickets.State) (cs : counters.State)
      {ticket : String}
      → (issue_websocket_ticket tickets strip texts t fresh user ts).0 ≡ ok ticket
      → t ≤ t'
      → t' < t + ws_ticket_ttl_seconds * second
      → (try_acquire counters limits t' (texts.uuid_text user) cs).0 ≡ true
      → let ts' = (issue_websocket_ticket tickets strip texts t fresh user ts).1 in
        (websocket_live tickets counters limits strip texts t' true (some ticket) (ts', cs)).0
        ≡ accepted user
  unfolding websocket_live admit_consumed admit_user admit_acquired issue_websocket_ticket
  issued_ticket_opens t t' fresh user ts cs {ticket} issued later soon room =
      let payload = ticket_payload tickets strip texts user t in
      let ts' = (issue_websocket_ticket tickets strip texts t fresh user ts).1 in
      let held = attempts_hold tickets strip t t' fresh payload 5 ts later soon issued in
      rw
        (
          held.0,
          consume_lem tickets strip t' ticket ts' held.0,
          script-value tickets strip t' (key tickets strip ticket) ts',
          held.1,
          parse-payload texts tickets strip user t,
          room,
        )
        refl
