-- ===== src/Audit/Policy.antt =====
-- Mandatory events fail the operation; advisory ones never do.
use attendence_v.Prelude.{◌≡◌, Bool, true, false, none, some, arith}
use attendence_v.Storage.{Session, Platform, Db, ok, raised, flush, database}
use attendence_v.Storage.Atomic.{Quiet, quiet_rules}
use attendence_v.Audit.{AuditEvent, add_governance, log_row, emit, emit_with_policy}

module _ (p : Platform) where
  pub Quiet-emit : (event : AuditEvent) → Quiet (emit p event)
  unfolding emit
  Quiet-emit event = search quiet_rules

  -- The open transaction of `s` with the event's row appended.
  abbrev pub with_row : AuditEvent → Session → Db
  with_row event s = add_governance (log_row p event) s.working

  -- Emitting never touches the committed rows. If the database takes the row, it is the last of
  -- the open transaction's ledger and nothing else changed. If not, a strict emission raises, and
  -- an advisory one returns None with the session rolled back to the committed rows.
  pub emit_with_policy_lem :
      (strict : Bool) (event : AuditEvent) (s : Session)
      → let (r, s') = emit_with_policy p strict event s in
        (s'.committed ≡ s.committed)
        × (p.accepts (with_row event s) ≡ true
            → (r ≡ ok (some (log_row p event))) × (s'.working ≡ with_row event s))
        × (p.accepts (with_row event s) ≡ false → strict ≡ true → r ≡ raised database)
        × (p.accepts (with_row event s) ≡ false
            → strict ≡ false
            → (r ≡ ok none) × (s'.working ≡ s.committed))
  unfolding emit_with_policy flush
  emit_with_policy_lem strict event s = (ground arith, ground arith, ground arith, ground arith)
