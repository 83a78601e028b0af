-- ===== src/Realtime/Connections/Broadcast.antt =====
-- Who is connected after a broadcast, and that one task runs.
use attendence_v.Prelude.{
  ℕ, ◌+◌, ◌≤◌, ◌≡◌, refl, ◌∙◌, ap, inl, inr, Bool-cases, Bool, true, not, ◌&&◌, ◌||◌, List, [], ◌∷◌,
  contains, ◌==◌, arith,
}
use attendence_v.Realtime.Connections.{
  BroadcastTask, no_task, running, finished, LiveState, Event, connected, disconnected,
  add_connection, discard, discard_all, needs_task, connect, disconnect, failed, drop_failed,
  apply_event, run_events, broadcast,
}

contains-discard :
    (v w : ℕ) (ws : List ℕ) → contains v (discard w ws) ≡ (contains v ws && not (v == w))
unfolding discard
contains-discard v w [] = refl
contains-discard v w (u ∷ ws) = ground (arith, contains-discard v w ws)

contains-discard_all :
    (v : ℕ) (ds ws : List ℕ)
    → contains v (discard_all ds ws) ≡ (contains v ws && not (contains v ds))
unfolding discard_all
contains-discard_all v [] ws = ground arith
contains-discard_all v (d ∷ ds) ws =
    ground (arith, contains-discard_all v ds (discard d ws), contains-discard v d ws)

same_sent : (sent : ℕ → Bool) (v w : ℕ) → (v == w) ≡ true → sent v ≡ sent w
same_sent sent v w h = ap sent (ground arith)

contains-failed :
    (sent : ℕ → Bool) (v : ℕ) (ws : List ℕ)
    → contains v (failed sent ws) ≡ (contains v ws && not (sent v))
unfolding failed
contains-failed sent v [] = refl
contains-failed sent v (w ∷ ws) = elim (Bool-cases (v == w)) [
  | inl h ↦ ground (arith, contains-failed sent v ws, same_sent sent v w h, h)
  | inr h ↦ ground (arith, contains-failed sent v ws, h)
]

contains-add_connection :
    (v w : ℕ) (ws : List ℕ) → contains v (add_connection w ws) ≡ ((v == w) || contains v ws)
unfolding add_connection
contains-add_connection v w ws = ground arith

-- After a broadcast a websocket is connected exactly if it is at that moment for all that happened
-- meanwhile, unless it was a recipient whose send failed. Every connection of the start is a
-- recipient, and the task is left as it is.
pub broadcast_lem :
    (sent : ℕ → Bool) (es : List Event) (s : LiveState) (v : ℕ)
    → let (recipients, s') = broadcast sent es s in
      (recipients ≡ s.connections)
      × (contains v s'.connections ≡ (
          contains v (run_events es s).connections
          && not (contains v s.connections && not (sent v))))
      × (s'.broadcast_task ≡ (run_events es s).broadcast_task)
unfolding broadcast drop_failed
broadcast_lem sent es s v = (
  refl,
  contains-discard_all v (failed sent s.connections) (run_events es s).connections
      ∙ ap (λ b. contains v (run_events es s).connections && not b)
          (contains-failed sent v s.connections),
  refl,
)

-- `0` or `1` for the tasks that run.
abbrev pub tasks : BroadcastTask → ℕ
tasks no_task = 0
tasks running = 1
tasks finished = 0

-- As long as the running task does not end, a run of connects and disconnects starts no second
-- one: however long it is, at most one task is made in it, and none if one was running.
run_events_lem :
    (es : List Event) (s : LiveState)
    → ((run_events es s).started + tasks s.broadcast_task ≤ s.started + 1)
      × (s.broadcast_task ≡ running
          → ((run_events es s).started ≡ s.started) × ((run_events es s).broadcast_task ≡ running))
unfolding run_events apply_event connect disconnect needs_task
run_events_lem [] s = (ground arith, ground arith)
run_events_lem (connected w ∷ es) s = (
  ground (arith, run_events_lem es (connect w s)),
  ground (arith, run_events_lem es (connect w s)),
)
run_events_lem (disconnected w ∷ es) s = (
  ground (arith, run_events_lem es (disconnect w s)),
  ground (arith, run_events_lem es (disconnect w s)),
)
