-- ===== src/Crud/Requests.antt =====
-- A write of a service that serves one request, with one queued event.
use attendence_v.Prelude.{
  ℕ, ◌≡◌, subst, is_some, Option, some, List, [], ◌∷◌, true, false, not, Bool, String, refl, arith,
}
use mathlib.Core.Option
use attendence_v.Storage.{Db, Session, Platform, Error, Result, ok, raised, http, resume, raise_if}
use attendence_v.Audit.{AuditEvent, add_governance, log_row}
use attendence_v.Crud.{
  Table, Service, Pending, Written, row, deleted, factory, on_session, queue_audit_event, create,
  update, delete, get, find, patched, patch_table, remove_rows, insert_table,
}
use attendence_v.Crud.Payloads.{handled}
use attendence_v.Crud.Writes.{Ends, create-Ends, update-Ends, delete-Ends, logged, left}

module _ {A : Type 0} where
  -- A request that writes returns `a` with `done` committed, or raises with nothing changed and
  -- nothing left open.
  abbrev pub Replies : Session → A → Db → Result A × Session → Type 0
  Replies s a done (ok b, s') = (b ≡ a) × (s'.committed ≡ done) × (s'.working ≡ done)
  Replies s a done (raised _, s') = (s'.committed ≡ s.committed) × (s'.working ≡ s.committed)

  Ends-Replies :
      {R : Type 0} (s : Session) (a : A) (done : Db) (queue : List (Pending R))
      (o : Result A × Service R)
      → Ends (record { session = s; pending = [] }) a done queue o
      → Replies s a done (o.0, o.1.session)
  Ends-Replies s a done queue (ok b, v) h = (h.0, h.1.0, h.1.1)
  Ends-Replies s a done queue (raised x, v) h = (h.0, h.1)

-- A handler changes the exception only.
pub handled-Replies :
    {A : Type 0} (f : Error → Error) (s : Session) (a : A) (done : Db) (o : Result A × Session)
    → Replies s a done o
    → Replies s a done (handled f o)
unfolding handled
handled-Replies f s a done (ok b, s') h = h
handled-Replies f s a done (raised x, s') h = h

-- A deletion that found no row is answered 404.
pub delete_reply-Replies :
    (detail : String) (s : Session) (done : Db) (o : Result Bool × Session)
    → Replies s true done o
    → Replies s tt done (resume (λ b. raise_if (not b) (http 404 detail)) o)
delete_reply-Replies detail s done (ok true, s') h = (refl, h.1, h.2)
delete_reply-Replies detail s done (ok false, s') h = absurd (ground (arith, h.0))
delete_reply-Replies detail s done (raised x, s') h = h

module _ {R : Type 0} (p : Platform) (t : Table R) (f : Written R → AuditEvent) (s : Session) where
  abbrev queued : Service R
  queued = record { session = s; pending = factory f ∷ [] }

  -- A creation: the row and the row of its event, or nothing.
  pub create_request-Replies :
      (r : R)
      → Replies s r
          (add_governance (log_row p (f (row r))) (insert_table p t r s.working))
          (on_session (λ v. create p t r (queue_audit_event (factory f) v)) s)
  unfolding on_session queue_audit_event
  create_request-Replies r = Ends-Replies s r _ [] _ (create-Ends p t r queued)

  -- An update of a row that is there.
  pub update_request-Replies :
      (k : ℕ) (g : R → R) (gs : List (R → R)) (r : R)
      → find p t k (t.rows s.working) ≡ some r
      → Replies s
          (some (patched p t (g ∷ gs) r))
          (add_governance
            (log_row p (f (row (patched p t (g ∷ gs) r))))
            (patch_table p t k (g ∷ gs) s.working))
          (on_session (λ v. update p t k (g ∷ gs) (queue_audit_event (factory f) v)) s)
  unfolding on_session queue_audit_event get
  update_request-Replies k g gs r found =
      let returned : Option R → Option (Written R) =
        Option.map (λ r'. row (patched p t (g ∷ gs) r')) in
      Ends-Replies s (some (patched p t (g ∷ gs) r)) _ [] (update p t k (g ∷ gs) queued) (
        subst
          (λ o.
            Ends queued (Option.map (patched p t (g ∷ gs)) o)
              (logged p (returned o) queued.pending (patch_table p t k (g ∷ gs) s.working))
              (left p (returned o) queued.pending) (update p t k (g ∷ gs) queued))
          found (update-Ends p t k g gs queued))

  -- A deletion of a row that is there.
  pub delete_request-Replies :
      (k : ℕ) (r : R)
      → find p t k (t.rows s.working) ≡ some r
      → Replies s true
          (add_governance (log_row p (f (deleted k))) (remove_rows p t k s.working))
          (on_session (λ v. delete p t k (queue_audit_event (factory f) v)) s)
  unfolding on_session queue_audit_event get
  delete_request-Replies k r found =
      let returned : Option R → Option (Written R) = Option.map (λ r'. deleted k) in
      Ends-Replies s true _ [] (delete p t k queued) (
        subst
          (λ o.
            Ends queued (is_some o)
              (logged p (returned o) queued.pending (remove_rows p t k s.working))
              (left p (returned o) queued.pending) (delete p t k queued))
          found (delete-Ends p t k queued))
