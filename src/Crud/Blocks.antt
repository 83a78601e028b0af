-- ===== src/Crud/Blocks.antt =====
-- The commit-or-rollback block of every write.
use attendence_v.Prelude.{◌≡◌, arith, refl}
use attendence_v.Storage.{
  Db, Session, Platform, Result, ok, raised, Exec, pure, ◌>>◌, resume, commit, with_commit,
}
use attendence_v.Storage.Atomic.{Quiet}
use attendence_v.Crud.{transaction, close, conclude}

module _ {A : Type 0} where
  -- What a block leaves, by how it ended: after a return the committed rows are `done`, after an
  -- exception those from before it, and in both cases no change is left open.
  abbrev pub Settled : Session → (A → Db) → Result A × Session → Type 0
  Settled s done (ok a, s') = (s'.committed ≡ done a) × (s'.working ≡ done a)
  Settled s done (raised _, s') = (s'.committed ≡ s.committed) × (s'.working ≡ s.committed)

  -- The same without the rollback: after an exception only the committed rows are those from before.
  abbrev pub Lands : Session → (A → Db) → Result A × Session → Type 0
  Lands s done (ok a, s') = (s'.committed ≡ done a) × (s'.working ≡ done a)
  Lands s done (raised _, s') = s'.committed ≡ s.committed

module _ (p : Platform) {A : Type 0} where
  resume-Lands :
      (s : Session) (done : A → Db) (o : Result A × Session)
      → o.1.committed ≡ s.committed
      → ((a : A) → o.0 ≡ ok a → o.1.working ≡ done a)
      → Lands s done (resume (λ a. commit p >> pure a) o)
  unfolding commit
  resume-Lands s done (ok a, s') e h = ground (arith, h a refl)
  resume-Lands s done (raised x, s') e h = e

  -- A body that never commits, followed by a commit.
  pub with_commit-Lands :
      (body : Exec A) (s : Session) (done : A → Db)
      → Quiet body
      → ((a : A) → (body s).0 ≡ ok a → (body s).1.working ≡ done a)
      → Lands s done (with_commit p body s)
  unfolding with_commit
  with_commit-Lands body s done q h = resume-Lands s done (body s) (q.at s) h

  close-Settled :
      (s : Session) (done : A → Db) (o : Result A × Session)
      → o.1.committed ≡ s.committed
      → ((a : A) → o.0 ≡ ok a → o.1.working ≡ done a)
      → Settled s done (close p o)
  unfolding close conclude commit
  close-Settled s done (ok a, s') e h = ground (arith, h a refl)
  close-Settled s done (raised x, s') e h = (e, e)

  -- A block whose body never commits, and leaves the rows `done` where it returns, commits all of
  -- them or nothing.
  pub transaction-Settled :
      (body : Exec A) (s : Session) (done : A → Db)
      → Quiet body
      → ((a : A) → (body s).0 ≡ ok a → (body s).1.working ≡ done a)
      → Settled s done (transaction p body s)
  unfolding transaction
  transaction-Settled body s done q h = close-Settled s done (body s) (q.at s) h

  close-value : (a : A) (o : Result A × Session) → (close p o).0 ≡ ok a → o.0 ≡ ok a
  unfolding close conclude commit
  close-value a (ok b, s) h = ground arith
  close-value a (raised x, s) h = h

  -- A block that returned has returned its body's value.
  pub transaction-value :
      (body : Exec A) (s : Session) (a : A) → (transaction p body s).0 ≡ ok a → (body s).0 ≡ ok a
  unfolding transaction
  transaction-value body s a h = close-value a (body s) h
