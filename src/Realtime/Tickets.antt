-- ===== src/Realtime/Tickets.antt =====
-- One-time tickets: `issue_ticket` and `consume_ticket` of backend/app/core/pubsub.py, and
-- `issue_websocket_ticket` of backend/app/api/v1/auth.py.
pub mod Memory
pub mod Plain
pub mod Script
use Prim.Native.String.{◌++◌ as text_append}
use text.Mathlib.Text.{◌==◌ as str_eq}
use attendence_v.Prelude.{
  ℕ, zero, suc, ◌+◌, ◌*◌, ◌≤◌, ◌<◌, ◌≡◌, ◌≢◌, String, Bool, true, false, Option, none, some,
  if◌then◌else◌, ◌==◌, List, [], ◌∷◌, map,
}
use attendence_v.Storage.{Error, Result, ok, raised, value_error, http}
use attendence_v.Storage.Models.{Json, string}
use attendence_v.Redis.{second}

-- What the code relies on of Redis: GET, whose answer at a moment is `holds`, SET … EX … NX, and
-- DEL. A key that is not there does not appear by the passing of time or by a DEL.
pub record Tickets : Type 1 where
  pub State : Type 0
  pub holds : ℕ → String → State → Option String
  pub put : ℕ → String → String → ℕ → State → Bool × State
  pub del : ℕ → String → State → State
  pub del_gone : (t : ℕ) (k : String) (s : State) → holds t k (del t k s) ≡ none
  pub del_absent :
      (t t' : ℕ) (k j : String) (s : State) → holds t' k s ≡ none → holds t' k (del t j s) ≡ none
  pub gone_stays :
      (t t' : ℕ) (k : String) (s : State) → t ≤ t' → holds t k s ≡ none → holds t' k s ≡ none
  pub put_free :
      (t : ℕ) (k v : String) (ttl : ℕ) (s : State) → holds t k s ≡ none → (put t k v ttl s).0 ≡ true
  pub put_taken :
      (t : ℕ) (k v w : String) (ttl : ℕ) (s : State)
      → holds t k s ≡ some w
      → put t k v ttl s ≡ (false, s)
  pub put_holds :
      (t t' : ℕ) (k v : String) (ttl : ℕ) (s : State)
      → (put t k v ttl s).0 ≡ true
      → t ≤ t'
      → t' < t + ttl * second
      → holds t' k (put t k v ttl s).1 ≡ some v

-- What `json.loads` gives: a dict, or anything else.
pub data Loaded : Type 0 where
  object : List (String × Json) → Loaded
  other : Loaded

abbrev pub text_field : String × String → String × Json
text_field (name, text) = (name, string text)

-- What the code relies on of `json` for a dict of texts, of `uuid`, and of `isoformat`; none is the
-- exception.
pub record Texts : Type 0 where
  pub dumps : List (String × String) → String
  pub loads : String → Option Loaded
  pub uuid_text : ℕ → String
  pub parse_uuid : String → Option ℕ
  pub iso_moment : ℕ → String
  pub loads-dumps :
      (fields : List (String × String))
      → loads (dumps fields) ≡ some (object (map text_field fields))
  pub parse_uuid-text : (k : ℕ) → parse_uuid (uuid_text k) ≡ some k

abbrev pub ws_ticket_ttl_seconds : ℕ
ws_ticket_ttl_seconds = 30

module _ (tickets : Tickets) (strip : String → String) where
  open tickets use {State}

  unfoldable pub websocket_ticket_key : String → Result String
  websocket_ticket_key ticket =
      if str_eq (strip ticket) ""
      then raised (value_error "Ticket value must not be blank.")
      else ok (text_append "auth:ws_ticket:" (strip ticket))

  unfoldable pub put_ticket : ℕ → String → ℕ → State → Result String → Result Bool × State
  put_ticket t payload ttl s (raised e) = (raised e, s)
  put_ticket t payload ttl s (ok key) =
      let (issued, s') = tickets.put t key payload ttl s in (ok issued, s')

  unfoldable pub issue_ticket : ℕ → String → String → ℕ → State → Result Bool × State
  issue_ticket t ticket payload ttl s =
      if ttl == 0
      then (raised (value_error "ttl_seconds must be greater than zero."), s)
      else put_ticket t payload ttl s (websocket_ticket_key ticket)

  -- The script of `consume_ticket`, from the answer of its GET on.
  unfoldable pub script_end : ℕ → String → State → Option String → Option String × State
  script_end t key s none = (none, s)
  script_end t key s (some value) = (some value, tickets.del t key s)

  -- `_CONSUME_TICKET_SCRIPT`, which Redis runs as one step.
  unfoldable pub consume_script : ℕ → String → State → Option String × State
  unfolding script_end
  consume_script t key s = script_end t key s (tickets.holds t key s)

  unfoldable pub take_ticket : ℕ → State → Result String → Result (Option String) × State
  take_ticket t s (raised e) = (raised e, s)
  take_ticket t s (ok key) = let (value, s') = consume_script t key s in (ok value, s')

  unfoldable pub consume_ticket : ℕ → String → State → Result (Option String) × State
  consume_ticket t ticket s = take_ticket t s (websocket_ticket_key ticket)

  -- What one attempt of the loop leaves to do; `rest` is the loop after it.
  unfoldable pub after_attempt :
      String → (State → Result String × State) → Result Bool × State → Result String × State
  after_attempt ticket rest (raised e, s) = (raised e, s)
  after_attempt ticket rest (ok issued, s) = if issued then (ok ticket, s) else rest s

  -- `fresh n` is the uuid4 of the attempt with `n` left after it.
  unfoldable pub attempts : ℕ → (ℕ → String) → String → ℕ → State → Result String × State
  attempts t fresh payload zero s =
      (raised (http 503 "Failed to issue websocket ticket. Please retry."), s)
  attempts t fresh payload (suc n) s =
      after_attempt (fresh n) (attempts t fresh payload n)
        (issue_ticket t (fresh n) payload ws_ticket_ttl_seconds s)

  -- The payload of a ticket.
  unfoldable pub ticket_payload : Texts → ℕ → ℕ → String
  ticket_payload texts user t =
      texts.dumps (("user_id", texts.uuid_text user) ∷ ("issued_at", texts.iso_moment t) ∷ [])

  unfoldable pub issue_websocket_ticket :
      Texts → ℕ → (ℕ → String) → ℕ → State → Result String × State
  issue_websocket_ticket texts t fresh user s = attempts t fresh (ticket_payload texts user t) 5 s
