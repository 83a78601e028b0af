-- ===== src/Realtime/Admission.antt =====
-- `websocket_live` and `sse_live` up to the moment at which the stream opens.
pub mod Once
use text.Mathlib.Text.{◌==◌ as str_eq}
use attendence_v.Prelude.{
  ℕ, String, Bool, true, false, not, Option, none, some, List, [], ◌∷◌, if◌then◌else◌,
}
use attendence_v.Storage.{Error, Result, ok, raised, http}
use attendence_v.Realtime.Limiter.{Counters, Limits, try_acquire}
use attendence_v.Storage.Models.{Json, string}
use attendence_v.Realtime.Tickets.{Tickets, Texts, Loaded, object, consume_ticket}

-- A websocket is closed with a code and a reason, or accepted for a user; `failed_with` is an
-- exception of the handler.
pub data Admission : Type 0 where
  closed : ℕ → String → Admission
  accepted : ℕ → Admission
  failed_with : Error → Admission

-- `payload.get(name)`
unfoldable pub get_field : String → List (String × Json) → Option Json
get_field name [] = none
get_field name ((key, v) ∷ fields) = if str_eq key name then some v else get_field name fields

unfoldable pub uuid_of : Texts → Option Json → Option ℕ
uuid_of texts (some (string text)) = texts.parse_uuid text
uuid_of texts v = none

unfoldable pub user_of : Texts → Option Loaded → Option ℕ
unfolding get_field uuid_of
user_of texts (some (object fields)) = uuid_of texts (get_field "user_id" fields)
user_of texts loaded = none

-- `_parse_ticket_user_id`
unfoldable pub parse_ticket_user_id : Texts → String → Option ℕ
unfolding user_of
parse_ticket_user_id texts payload = user_of texts (texts.loads payload)

module _ (tickets : Tickets) (counters : Counters) (limits : Limits) (strip : String → String)
    (texts : Texts) where
  unfoldable pub admit_acquired : ℕ → Bool → Admission
  admit_acquired user acquired =
      if not acquired
      then closed 1011 "Too many concurrent realtime connections; try again later."
      else accepted user

  -- `available` says whether the limiter reaches Redis.
  unfoldable pub admit_user :
      ℕ
      → Bool
      → tickets.State × counters.State
      → Option ℕ
      → Admission × tickets.State × counters.State
  admit_user t available (ts, cs) none = (closed 1008 "Websocket ticket is malformed.", ts, cs)
  admit_user t available (ts, cs) (some user) =
      if not available
      then (closed 1011 "Realtime limiter unavailable; try again later.", ts, cs)
      else (let (acquired, cs') = try_acquire counters limits t (texts.uuid_text user) cs in
          (admit_acquired user acquired, ts, cs'))

  unfoldable pub admit_consumed :
      ℕ
      → Bool
      → counters.State
      → Result (Option String) × tickets.State
      → Admission × tickets.State × counters.State
  admit_consumed t available cs (raised e, ts) = (failed_with e, ts, cs)
  admit_consumed t available cs (ok none, ts) =
      (closed 1008 "Websocket ticket is invalid or expired.", ts, cs)
  admit_consumed t available cs (ok (some payload), ts) =
      admit_user t available (ts, cs) (parse_ticket_user_id texts payload)

  unfoldable pub websocket_live :
      ℕ
      → Bool
      → Option String
      → tickets.State × counters.State
      → Admission × tickets.State × counters.State
  websocket_live t available none (ts, cs) = (closed 1008 "Missing websocket ticket.", ts, cs)
  websocket_live t available (some ticket) (ts, cs) =
      if str_eq (strip ticket) ""
      then (closed 1008 "Missing websocket ticket.", ts, cs)
      else admit_consumed t available cs (consume_ticket tickets strip t ticket ts)
