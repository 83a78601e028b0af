-- ===== src/Realtime/Tests.antt =====
-- Runs of the limiter and of the connections, and the theorems at one user.
use attendence_v.Prelude.{
  ◌≡◌, ◌≢◌, ◌⊎◌, refl, ap, true, false, some, not, ◌&&◌, List, [], ◌∷◌, contains, arith, ◌==◌,
}
use mathlib.Core.Bool.{false≢true}
use text.Mathlib.Text.{◌==◌ as str_eq}
use attendence_v.Realtime.Integer.{pos, negsuc, suc_int, above}
use attendence_v.Realtime.Limiter.{
  Limits, total_key, per_user_key, acquire_total, try_acquire, release,
}
use attendence_v.Realtime.Limiter.Caps.{users, total, try_acquire_lem, release_underflows}
use attendence_v.Realtime.Limiter.Memory.{memory_counters, Entry}
use attendence_v.Realtime.Connections.{LiveState, connected, running, broadcast, run_events}
use attendence_v.Storage.{ok}
use attendence_v.Realtime.Tickets.{
  websocket_ticket_key, put_ticket, issue_ticket, after_attempt, attempts, issue_websocket_ticket,
}
use attendence_v.Auth.Tokens.Plain.{more}
use attendence_v.Realtime.Tickets.Plain.{plain_texts}
use attendence_v.Realtime.Tickets.Memory.{memory_tickets}
use attendence_v.Realtime.Admission.{closed, accepted, websocket_live}
use attendence_v.Realtime.Admission.Once.{
  Attempt, left_by, after_attempts, ticket_opens_once, issued_ticket_opens,
}
use attendence_v.Realtime.Connections.Broadcast.{broadcast_lem}

abbrev one_each : Limits
one_each = record { per_user_cap = 1; total_cap = 1; ttl_seconds = 60 }

distinct : per_user_key "5" ≢ total_key
distinct e = false≢true (ap (λ k. str_eq k "ws:total") e)

won : (try_acquire memory_counters one_each 0 "5" []).0 ≡ true
unfolding try_acquire acquire_total above suc_int
won = refl

try_acquire_example :
    let (won, s') = try_acquire memory_counters one_each 0 "5" [] in
    let full = (above (suc_int (pos 0)) 1 ≡ true) ⊎ (above (suc_int (pos 0)) 1 ≡ true) in
    (full
      → (won ≡ false)
        × (users memory_counters one_each 0 "5" s' ≡ pos 0)
        × (total memory_counters one_each 0 s' ≡ pos 0))
    × ((full → ⊥)
        → (won ≡ true)
          × (users memory_counters one_each 0 "5" s' ≡ suc_int (pos 0))
          × (total memory_counters one_each 0 s' ≡ suc_int (pos 0)))
try_acquire_example = try_acquire_lem memory_counters one_each 0 "5" [] distinct (omega arith)

-- A connection of user 5 that outlives the 60 seconds of its counters.
expired : List Entry
unfolding try_acquire
expired = (try_acquire memory_counters one_each 0 "5" []).1

release_underflows_example :
    total memory_counters one_each 60000000 (release memory_counters one_each 60000000 "5" expired)
    ≡ negsuc 0
unfolding expired try_acquire acquire_total above suc_int
release_underflows_example =
    release_underflows memory_counters one_each 60000000 "5" expired refl refl

abbrev two : LiveState
two = record { connections = 1 ∷ 2 ∷ []; broadcast_task = running; started = 1 }

broadcast_example :
    let (recipients, s') = broadcast (λ w. w == 1) (connected 3 ∷ []) two in
    (recipients ≡ 1 ∷ 2 ∷ [])
    × (contains 2 s'.connections
        ≡ (contains 2 (run_events (connected 3 ∷ []) two).connections && not true))
    × (s'.broadcast_task ≡ (run_events (connected 3 ∷ []) two).broadcast_task)
broadcast_example = broadcast_lem (λ w. w == 1) (connected 3 ∷ []) two 2

abbrev retry : Attempt
retry = record { moment = 6; available = true; ticket = some "u" }

ticket_opens_once_example :
    let live = websocket_live memory_tickets memory_counters one_each (λ s. s) plain_texts in
    let first = live 5 true (some "u") ([], []) in
    let after =
      after_attempts memory_tickets memory_counters one_each
        (λ s. s)
        plain_texts
        (retry ∷ [])
        (left_by memory_tickets memory_counters one_each (λ s. s) plain_texts first) in
    let again = live 7 true (some "u") after in
    (again.0 ≡ closed 1008 "Websocket ticket is invalid or expired.") × (again.2 ≡ after.1)
ticket_opens_once_example =
    ticket_opens_once memory_tickets memory_counters one_each (λ s. s) plain_texts 5 7 true true "u"
      (retry ∷ []) ([], []) refl (omega arith)

issued : (issue_websocket_ticket memory_tickets (λ s. s) plain_texts 5 (λ n. "u") 5 []).0 ≡ ok "u"
unfolding issue_websocket_ticket attempts after_attempt issue_ticket put_ticket websocket_ticket_key
issued = refl

issued_ticket_opens_example :
    let after = (issue_websocket_ticket memory_tickets (λ s. s) plain_texts 5 (λ n. "u") 5 []).1 in
    (websocket_live memory_tickets memory_counters one_each
      (λ s. s)
      plain_texts
      9
      true
      (some "u")
      (after, [])).0
    ≡ accepted 5
unfolding try_acquire acquire_total above suc_int more
issued_ticket_opens_example =
    issued_ticket_opens memory_tickets memory_counters one_each (λ s. s) plain_texts 5 9 (λ n. "u")
      5 [] [] issued (omega arith) (omega arith) refl
