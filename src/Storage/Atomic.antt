-- ===== src/Storage/Atomic.antt =====
-- Code that leaves the committed rows alone, one rule for each way to build it, and what the
-- commit-or-rollback block makes of such code.
use attendence_v.Prelude.{◌≡◌, ◌∙◌, refl, arith, Bool}
use attendence_v.Storage.{
  Db, Session, Platform, Error, Result, ok, raised, Exec, pure, raise, resume, ◌>>=◌, query,
  raise_if, add, flush, execute,
}

pub record Quiet {A : Type 0} (m : Exec A) : Type 0 where
  pub at : (s : Session) → (m s).1.committed ≡ s.committed

module _ {A : Type 0} where
  pub Quiet-pure : (a : A) → Quiet (pure a)
  Quiet-pure a = record { at = λ s. refl }

  pub Quiet-raise : (x : Error) → Quiet (raise {A = A} x)
  Quiet-raise x = record { at = λ s. refl }

  pub Quiet-query : (f : Db → A) → Quiet (query f)
  Quiet-query f = record { at = λ s. refl }

pub Quiet-raise_if : (b : Bool) (x : Error) → Quiet (raise_if b x)
Quiet-raise_if b x = record { at = λ s. refl }

pub Quiet-add : (f : Db → Db) → Quiet (add f)
Quiet-add f = record { at = λ s. refl }

pub Quiet-flush : (p : Platform) → Quiet (flush p)
unfolding flush
Quiet-flush p = record { at = λ s. ground arith }

pub Quiet-execute : (p : Platform) (f : Db → Db) → Quiet (execute p f)
unfolding execute
Quiet-execute p f = record { at = λ s. ground arith }

resume-committed :
    {A B : Type 0} (f : A → Exec B) (s : Session) (o : Result A × Session)
    → ((a : A) → Quiet (f a))
    → o.1.committed ≡ s.committed
    → (resume f o).1.committed ≡ s.committed
resume-committed f s (ok a, s') qf e = (qf a).at s' ∙ e
resume-committed f s (raised x, s') qf e = e

pub Quiet-bind :
    {A B : Type 0} (m : Exec A) (f : A → Exec B)
    → Quiet m
    → ((a : A) → Quiet (f a))
    → Quiet (m >>= f)
Quiet-bind m f qm qf = record { at = λ s. resume-committed f s (m s) qf (qm.at s) }

pub ruleset quiet_rules = (
  Quiet-pure, Quiet-raise, Quiet-query, Quiet-raise_if, Quiet-add, Quiet-flush, Quiet-execute,
  Quiet-bind,
)
