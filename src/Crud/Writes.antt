-- ===== src/Crud/Writes.antt =====
-- Create, update and delete with the events that were queued for them.
use attendence_v.Prelude.{ℕ, ◌≡◌, refl, Option, none, some, List, [], ◌∷◌, arith, is_some}
use mathlib.Core.Option
use attendence_v.Storage.{Db, Session, Platform, Result, ok, raised, commit, execute}
use attendence_v.Crud.{
  Table, Service, Pending, Written, row, deleted, finish, write, create, get, patched, patch_table,
  update, remove_rows, delete, insert_table,
}
use attendence_v.Crud.Queue.{with_events, drain-committed, drain_lem}

module _ {R : Type 0} where
  -- A write that raised: nothing is stored, nothing is left open, and the queue is empty.
  abbrev pub IsUndone : Service R → Service R → Type 0
  IsUndone v v' =
      (v'.session.committed ≡ v.session.committed)
      × (v'.session.working ≡ v.session.committed)
      × (v'.pending ≡ [])

  -- A write that went through: `done` is committed, and `queue` is what is still pending.
  abbrev pub IsStored : Db → List (Pending R) → Service R → Type 0
  IsStored done queue v' =
      (v'.session.committed ≡ done) × (v'.session.working ≡ done) × (v'.pending ≡ queue)

  abbrev pub Ends :
      {A : Type 0} → Service R → A → Db → List (Pending R) → Result A × Service R → Type 0
  Ends v a done queue (ok b, v') = (b ≡ a) × IsStored done queue v'
  Ends v a done queue (raised _, v') = IsUndone v v'

  module _ (p : Platform) where
    finish-Ends :
        {A : Type 0} (v : Service R) (a : A) (done : Db) (left : List (Pending R))
        (o : Result (Unit {0}) × List (Pending R) × Session)
        → o.2.committed ≡ v.session.committed
        → (o.0 ≡ ok tt → (o.1 ≡ left) × (o.2.working ≡ done))
        → Ends v a done left (finish p a o)
    unfolding finish commit
    finish-Ends v a done left (ok tt, queue, s) e h = ground (arith, h refl)
    finish-Ends v a done left (raised x, queue, s) e h = (e, e, refl)

    -- What a write block has stored and left in the queue: the queue is only drained into the
    -- ledger if the statement returned a row.
    abbrev pub logged : Option (Written R) → List (Pending R) → Db → Db
    logged none queue d = d
    logged (some w) queue d = with_events p w queue d

    abbrev pub left : Option (Written R) → List (Pending R) → List (Pending R)
    left none queue = queue
    left (some _) queue = []

    write-committed :
        (f : Db → Db) (returned : Option (Written R)) (v : Service R)
        → (write p f returned v).2.committed ≡ v.session.committed
    unfolding write execute
    write-committed f none v = ground arith
    write-committed f (some w) v =
        ground (
          arith,
          drain-committed p w v.pending (record v.session { working = f v.session.working }),
        )

    write_lem :
        (f : Db → Db) (returned : Option (Written R)) (v : Service R)
        → (write p f returned v).0 ≡ ok tt
        → ((write p f returned v).1 ≡ left returned v.pending)
          × ((write p f returned v).2.working ≡ logged returned v.pending (f v.session.working))
    unfolding write execute
    write_lem f none v h = ground arith
    write_lem f (some w) v h =
        ground (arith, drain_lem p w v.pending (record v.session { working = f v.session.working }))

    write-Ends :
        {A : Type 0} (a : A) (f : Db → Db) (returned : Option (Written R)) (v : Service R)
        → Ends v a
            (logged returned v.pending (f v.session.working))
            (left returned v.pending)
            (finish p a (write p f returned v))
    write-Ends a f returned v =
        finish-Ends v a _ _ (write p f returned v) (write-committed f returned v)
          (write_lem f returned v)

    module _ (t : Table R) where
      -- The row and one ledger row for every queued event, in their order, are stored together or
      -- not at all; either way the queue is empty afterwards and no transaction is left open.
      pub create-Ends :
          (r : R) (v : Service R)
          → Ends v r
              (with_events p (row r) v.pending (insert_table p t r v.session.working))
              []
              (create p t r v)
      unfolding create
      create-Ends r v = write-Ends r (insert_table p t r) (some (row r)) v

      -- A patch of an existing row stores the patched rows with the ledger rows of the queue, or
      -- nothing. If no row has the identifier the ledger gets nothing, and the queue stays.
      pub update-Ends :
          (k : ℕ) (f : R → R) (fs : List (R → R)) (v : Service R)
          → let returned = Option.map (λ r. row (patched p t (f ∷ fs) r)) (get p t k v) in
            Ends v
              (Option.map (patched p t (f ∷ fs)) (get p t k v))
              (logged returned v.pending (patch_table p t k (f ∷ fs) v.session.working))
              (left returned v.pending)
              (update p t k (f ∷ fs) v)
      unfolding update
      update-Ends k f fs v =
          write-Ends _ (patch_table p t k (f ∷ fs)) (Option.map _ (get p t k v)) v

      -- The same of a deletion.
      pub delete-Ends :
          (k : ℕ) (v : Service R)
          → let returned = Option.map (λ _. deleted k) (get p t k v) in
            Ends v
              (is_some (get p t k v))
              (logged returned v.pending (remove_rows p t k v.session.working))
              (left returned v.pending)
              (delete p t k v)
      unfolding delete
      delete-Ends k v =
          write-Ends _ (remove_rows p t k) (Option.map (λ _. deleted k) (get p t k v)) v
