-- ===== src/Crud.antt =====
-- backend/app/services/base.py: the commit-or-rollback block, and the generic create, read,
-- update and delete service with its queue of governance events.
pub mod Blocks
pub mod Queue
pub mod Writes
pub mod Requests
pub mod Payloads
mod Tests
use attendence_v.Prelude.{
  ℕ, String, Bool, true, false, ◌&&◌, not, Option, none, some, List, [], ◌∷◌, ◌++◌, filter, take,
  drop, if◌then◌else◌, is_some, ◌==◌, ltb,
}
use mathlib.Core.Option
use attendence_v.Prelude.Double.{ℤ, pos, negsuc}
use attendence_v.Storage.{
  Db, Session, Platform, Error, Result, ok, raised, value_error, Exec, pure, ◌>>=◌, ◌>>◌, add,
  flush, rollback, commit, execute,
}
use attendence_v.Storage.Models.{GovernanceLog}
use attendence_v.Audit.{AuditEvent, emit}

module _ (p : Platform) {A : Type 0} where
  -- After a commit that fails the session is rolled back and the exception goes on.
  unfoldable pub conclude : A → Result (Unit {0}) × Session → Result A × Session
  conclude a (ok _, s) = (ok a, s)
  conclude a (raised x, s) = (raised x, rollback s)

  unfoldable pub close : Result A × Session → Result A × Session
  close (ok a, s) = conclude a (commit p s)
  close (raised x, s) = (raised x, rollback s)

  -- `async with self.transaction(): body`
  unfoldable pub transaction : Exec A → Exec A
  unfolding close conclude
  transaction body s = close (body s)

-- What a statement returned: a row, or the identifier of a deleted row.
pub data Written (R : Type 0) : Type 0 where
  row : R → Written R
  deleted : ℕ → Written R

-- An entry of `_pending_audit`: an event, or a factory of one.
pub data Pending (R : Type 0) : Type 0 where
  event : AuditEvent → Pending R
  factory : (Written R → AuditEvent) → Pending R

-- The table of a model: its rows, and the database with other rows in it.
pub record Table (R : Type 0) : Type 0 where
  pub rows : Db → List R
  pub replace : List R → Db → Db
  pub id : R → ℕ

pub record Service (R : Type 0) : Type 0 where
  pub session : Session
  pub pending : List (Pending R)

-- The service that a request builds, for one call on its session.
unfoldable pub on_session : {R A : Type 0} → (Service R → Result A × Service R) → Exec A
on_session call s = let (r, v) = call (record { session = s; pending = [] }) in (r, v.session)

abbrev pub to_event : {R : Type 0} → Written R → Pending R → AuditEvent
to_event w (event e) = e
to_event w (factory f) = f w

module _ {R : Type 0} where
  -- `queue_audit_event`
  unfoldable pub queue_audit_event : Pending R → Service R → Service R
  queue_audit_event entry v = record v { pending = v.pending ++ entry ∷ [] }

  module _ (p : Platform) where
    -- `_drain_pending_audit`: entries leave the queue one by one as their rows are emitted.
    unfoldable pub drain :
        Written R → List (Pending R) → Session → Result (Unit {0}) × List (Pending R) × Session
    drain w [] s = (ok tt, [], s)
    drain w (entry ∷ rest) s = elim (emit p (to_event w entry) s).0 [
      | ok _ ↦ drain w rest (emit p (to_event w entry) s).1
      | raised x ↦ (raised x, rest, (emit p (to_event w entry) s).1)
    ]

    -- The end of `transaction` for a service: its handler also clears the queue.
    unfoldable pub finish :
        {A : Type 0} → A → Result (Unit {0}) × List (Pending R) × Session → Result A × Service R
    finish a (ok _, queue, s) = elim (commit p s).0 [
      | ok _ ↦ (ok a, record { session = (commit p s).1; pending = queue })
      | raised x ↦ (raised x, record { session = rollback (commit p s).1; pending = [] })
    ]
    finish a (raised x, queue, s) = (raised x, record { session = rollback s; pending = [] })

    -- The rest of the block after its statement: `returned` is the row that came back, if any.
    unfoldable pub drain_returned :
        Option (Written R)
        → List (Pending R)
        → Result (Unit {0}) × Session
        → Result (Unit {0}) × List (Pending R) × Session
    drain_returned returned queue (raised x, s) = (raised x, queue, s)
    drain_returned none queue (ok _, s) = (ok tt, queue, s)
    drain_returned (some w) queue (ok _, s) = drain w queue s

    -- The body of the write blocks: one statement, and the queue if it returned a row.
    unfoldable pub write :
        (Db → Db) → Option (Written R) → Service R → Result (Unit {0}) × List (Pending R) × Session
    unfolding drain_returned
    write statement returned v = drain_returned returned v.pending (execute p statement v.session)

    module _ (t : Table R) where
      abbrev pub find : ℕ → List R → Option R
      find k [] = none
      find k (r ∷ rs) = if k == t.id r then some r else find k rs

      -- `get`
      unfoldable pub get : ℕ → Service R → Option R
      get k v = find k (t.rows v.session.working)

      -- `list`, with the filters as one test and the database's order as a function.
      unfoldable pub list : ℤ → ℤ → (R → Bool) → (List R → List R) → Service R → Result (List R)
      list (negsuc _) limit keep order v =
          raised (value_error "offset must be greater than or equal to zero")
      list (pos offset) (negsuc _) keep order v =
          raised (value_error "limit must be greater than zero")
      list (pos offset) (pos limit) keep order v =
          if ltb limit 1
          then raised (value_error "limit must be greater than zero")
          else ok (take limit (drop offset (order (filter keep (t.rows v.session.working)))))

      abbrev pub insert_table : R → Db → Db
      insert_table r d = t.replace (t.rows d ++ r ∷ []) d

      -- `create`; `r` is the row of the payload, with its generated identifier.
      unfoldable pub create : R → Service R → Result R × Service R
      create r v = finish r (write (insert_table r) (some (row r)) v)

      -- The values of a patch, one function for each field that is set.
      abbrev pub patched : List (R → R) → R → R
      patched [] r = r
      patched (f ∷ fs) r = patched fs (f r)

      abbrev pub patch_rows : ℕ → List (R → R) → List R → List R
      patch_rows k values [] = []
      patch_rows k values (r ∷ rs) =
          let rest = patch_rows k values rs in
          if k == t.id r then patched values r ∷ rest else r ∷ rest

      abbrev pub patch_table : ℕ → List (R → R) → Db → Db
      patch_table k values d = t.replace (patch_rows k values (t.rows d)) d

      -- `update`: no values means no write, and the queue is dropped.
      unfoldable pub update : ℕ → List (R → R) → Service R → Result (Option R) × Service R
      update k [] v = (ok (get k v), record v { pending = [] })
      update k (f ∷ fs) v =
          finish (Option.map (patched (f ∷ fs)) (get k v)) (
            write (patch_table k (f ∷ fs)) (Option.map (λ r. row (patched (f ∷ fs) r)) (get k v)) v)

      abbrev pub remove_rows : ℕ → Db → Db
      remove_rows k d = t.replace (filter (λ r. not (k == t.id r)) (t.rows d)) d

      -- `delete`
      unfoldable pub delete : ℕ → Service R → Result Bool × Service R
      delete k v =
          finish (is_some (get k v))
            (write (remove_rows k) (Option.map (λ _. deleted k) (get k v)) v)
