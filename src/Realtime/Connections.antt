-- ===== src/Realtime/Connections.antt =====
-- `LiveConnectionManager`: the set of websockets and the one broadcast task of a process.
pub mod Broadcast
use attendence_v.Prelude.{
  ℕ, ◌+◌, Bool, true, false, not, List, [], ◌∷◌, contains, filter, ◌==◌, ◌||◌, if◌then◌else◌,
}

-- No task, a running one, or one that is `done()`.
pub data BroadcastTask : Type 0 where
  no_task running finished : BroadcastTask

-- Websockets by identity; `started` counts the tasks that `connect` made.
pub record LiveState : Type 0 where
  pub connections : List ℕ
  pub broadcast_task : BroadcastTask
  pub started : ℕ

-- `set.add` and `set.discard`
unfoldable pub add_connection : ℕ → List ℕ → List ℕ
add_connection w ws = if contains w ws then ws else w ∷ ws

unfoldable pub discard : ℕ → List ℕ → List ℕ
discard w ws = filter (λ v. not (v == w)) ws

unfoldable pub discard_all : List ℕ → List ℕ → List ℕ
discard_all [] ws = ws
discard_all (d ∷ ds) ws = discard_all ds (discard d ws)

-- `self._broadcast_task is None or self._broadcast_task.done()`
unfoldable pub needs_task : BroadcastTask → Bool
needs_task no_task = true
needs_task running = false
needs_task finished = true

-- The part of `connect` under the lock; the websocket was accepted before.
unfoldable pub connect : ℕ → LiveState → LiveState
connect w s =
    let added = add_connection w s.connections in
    if needs_task s.broadcast_task
    then record { connections = added; broadcast_task = running; started = s.started + 1 }
    else record s { connections = added }

unfoldable pub disconnect : ℕ → LiveState → LiveState
disconnect w s = record s { connections = discard w s.connections }

-- The websockets of a snapshot whose send failed; `sent` says how each send ended.
unfoldable pub failed : (ℕ → Bool) → List ℕ → List ℕ
failed sent [] = []
failed sent (w ∷ ws) = if sent w then failed sent ws else w ∷ failed sent ws

-- The end of `_broadcast`: the failed recipients of the snapshot leave the set as it is then.
unfoldable pub drop_failed : (ℕ → Bool) → List ℕ → LiveState → LiveState
drop_failed sent recipients s = record s {
  connections = discard_all (failed sent recipients) s.connections;
}

-- What other requests do while the sends are under way.
pub data Event : Type 0 where
  connected disconnected : ℕ → Event

unfoldable pub apply_event : Event → LiveState → LiveState
apply_event (connected w) s = connect w s
apply_event (disconnected w) s = disconnect w s

unfoldable pub run_events : List Event → LiveState → LiveState
run_events [] s = s
run_events (e ∷ es) s = run_events es (apply_event e s)

-- One `_broadcast`: the recipients are the connections at its start, `es` happens meanwhile.
unfoldable pub broadcast : (ℕ → Bool) → List Event → LiveState → List ℕ × LiveState
broadcast sent es s = (s.connections, drop_failed sent s.connections (run_events es s))
