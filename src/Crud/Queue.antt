-- ===== src/Crud/Queue.antt =====
-- Draining the queue of governance events inside the open transaction.
use attendence_v.Prelude.{◌≡◌, refl, List, [], ◌∷◌, ◌++◌, map, arith}
use mathlib.Core.List.{append_assoc, append-nil}
use attendence_v.Storage.{Db, Session, Platform, ok, flush}
use attendence_v.Storage.Models.{GovernanceLog}
use attendence_v.Audit.{add_governance, log_row, emit}
use attendence_v.Crud.{Written, Pending, to_event, drain}

module _ (p : Platform) {R : Type 0} where
  -- The rows of the queue's events, in order.
  abbrev pub event_rows : Written R → List (Pending R) → List GovernanceLog
  event_rows w = map (λ entry. log_row p (to_event w entry))

  abbrev pub with_events : Written R → List (Pending R) → Db → Db
  with_events w queue d = record d { governance_logs = d.governance_logs ++ event_rows w queue }

  pub drain-committed :
      (w : Written R) (queue : List (Pending R)) (s : Session)
      → (drain p w queue s).2.committed ≡ s.committed
  unfolding drain emit flush
  drain-committed w [] s = refl
  drain-committed w (entry ∷ rest) s =
      ground (arith, drain-committed w rest (emit p (to_event w entry) s).1)

  with_events-cons :
      (w : Written R) (entry : Pending R) (rest : List (Pending R)) (d : Db)
      → with_events w rest (add_governance (log_row p (to_event w entry)) d)
        ≡ with_events w (entry ∷ rest) d
  with_events-cons w entry rest d = simp append_assoc

  -- A drain that did not raise has emptied the queue and appended its rows in order.
  pub drain_lem :
      (w : Written R) (queue : List (Pending R)) (s : Session)
      → (drain p w queue s).0 ≡ ok tt
      → ((drain p w queue s).1 ≡ [])
        × ((drain p w queue s).2.working ≡ with_events w queue s.working)
  unfolding drain emit flush
  drain_lem w [] s h = (refl, simp append-nil)
  drain_lem w (entry ∷ rest) s h = ground (
    arith,
    drain_lem w rest (emit p (to_event w entry) s).1,
    with_events-cons w entry rest s.working,
  )
