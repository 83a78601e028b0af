-- ===== src/Importer/Program/Whole.antt =====
-- A run as a whole: its counters, and the templates.
use attendence_v.Prelude.{ℕ, ◌+◌, ◌≡◌, ◌∙◌, sym, refl, subst, List, [], ◌∷◌, arith, length}
use attendence_v.Storage.{Db, Platform}
use attendence_v.Templates.Rotation.{Gallery, Represents}
use attendence_v.Importer.Inputs.{ImportRow, ParseIssue, Unbindable}
use attendence_v.Importer.Rows.{Reject, Run, Settings, Surroundings, count_row, reject}
use attendence_v.Importer.Rows.Balance.{
  Balanced, StepBalanced, reject-Balanced, failed_rows, import_rows-StepBalanced,
}
use attendence_v.Importer.Rows.Store.{Reached, StepReached, import_rows-StepReached}
use attendence_v.Importer.Program.{
  issue_reject, unbindable_reject, empty_summary, empty_run, reject_issues, reject_unbindable,
  import_inputs,
}

empty_run-Balanced : (ignored : ℕ) (d : Db) → Balanced 0 0 (empty_run ignored d)
unfolding empty_run empty_summary failed_rows
empty_run-Balanced ignored d = record {
  total = refl;
  rows = refl;
  rejects = refl;
  journal = refl;
  rotated = omega arith;
}

count_row-Balanced :
    (t n : ℕ) (run : Run) → Balanced t n run → Balanced (t + 1) (n + 1) (count_row run)
unfolding count_row failed_rows
count_row-Balanced t n run b = record {
  total = omega (arith, b.total);
  rows = omega (arith, b.rows);
  rejects = b.rejects;
  journal = b.journal;
  rotated = b.rotated;
}

Balanced-cast : {t u : ℕ} {run : Run} → t ≡ u → Balanced t 0 run → Balanced u 0 run
Balanced-cast {run = run} e b = subst (λ u. Balanced u 0 run) e b

rejected-Balanced :
    (r : Reject) (t : ℕ) (run : Run)
    → Balanced t 0 run
    → Balanced (t + 1) 0 (reject r (count_row run))
rejected-Balanced r t run b =
    reject-Balanced (t + 1) 0 r (count_row run) (count_row-Balanced t 0 run b)

reject_issues-Balanced :
    (issues : List ParseIssue) (t : ℕ) (run : Run)
    → Balanced t 0 run
    → Balanced (t + length issues) 0 (reject_issues issues run)
unfolding reject_issues
reject_issues-Balanced [] t run b = Balanced-cast (omega arith) b
reject_issues-Balanced (i ∷ issues) t run b = Balanced-cast (omega arith) (
    reject_issues-Balanced issues (t + 1) (reject (issue_reject i) (count_row run))
      (rejected-Balanced (issue_reject i) t run b))

reject_unbindable-Balanced :
    (us : List Unbindable) (t : ℕ) (run : Run)
    → Balanced t 0 run
    → Balanced (t + length us) 0 (reject_unbindable us run)
unfolding reject_unbindable
reject_unbindable-Balanced [] t run b = Balanced-cast (omega arith) b
reject_unbindable-Balanced (u ∷ us) t run b = Balanced-cast (omega arith) (
    reject_unbindable-Balanced us (t + 1) (reject (unbindable_reject u) (count_row run))
      (rejected-Balanced (unbindable_reject u) t run b))

reject_issues_store :
    (issues : List ParseIssue) (run : Run)
    → ((reject_issues issues run).db ≡ run.db) × ((reject_issues issues run).journal ≡ run.journal)
unfolding reject_issues reject count_row
reject_issues_store [] run = (refl, refl)
reject_issues_store (i ∷ issues) run =
    reject_issues_store issues (reject (issue_reject i) (count_row run))

reject_unbindable_store :
    (us : List Unbindable) (run : Run)
    → ((reject_unbindable us run).db ≡ run.db) × ((reject_unbindable us run).journal ≡ run.journal)
unfolding reject_unbindable reject count_row
reject_unbindable_store [] run = (refl, refl)
reject_unbindable_store (u ∷ us) run =
    reject_unbindable_store us (reject (unbindable_reject u) (count_row run))

module _ {Tensor : Type 0} (on : Surroundings Tensor) (p : Platform) (settings : Settings) where
  module _ (rows : List ImportRow) (issues : List ParseIssue) (unbindable : List Unbindable)
      (ignored : ℕ) (d : Db) where
    abbrev start : Run
    start = reject_unbindable unbindable (reject_issues issues (empty_run ignored d))

    -- A finished run has counted every issue, every file that binds to nobody and every row, each
    -- under exactly one outcome: imported, would import, skipped as resumed, skipped for an active
    -- template, or failed as in the coverage line. reasons.csv has a line for each rejected one, the
    -- journal a record for each import. An aborted run has counted all but the row that it gave up at.
    pub import_inputs-StepBalanced :
        StepBalanced
          (length issues + length unbindable + length rows)
          (import_inputs on p settings rows issues unbindable ignored d)
    unfolding import_inputs
    import_inputs-StepBalanced =
        import_rows-StepBalanced on settings p rows (length issues + length unbindable) start (
          reject_unbindable-Balanced unbindable (length issues)
            (reject_issues issues (empty_run ignored d))
            (Balanced-cast (omega arith) (
              reject_issues-Balanced issues 0 (empty_run ignored d)
                (empty_run-Balanced ignored d))))

    start_store : (start.db ≡ d) × (start.journal ≡ [])
    unfolding empty_run
    start_store =
        let (db_u, journal_u) =
          reject_unbindable_store unbindable (reject_issues issues (empty_run ignored d)) in
        let (db_i, journal_i) = reject_issues_store issues (empty_run ignored d) in
        (db_u ∙ db_i, journal_u ∙ journal_i)

    start-Reached : (g : Gallery) → Represents d g → Reached settings d g start.db start.journal
    start-Reached g r =
        subst (λ d'. Reached settings d g d' start.journal) (sym start_store.0)
          (subst (λ journal. Reached settings d g d journal) (sym start_store.1)
            (record {
              gallery = g;
              represents = r;
              evidence = tt;
              dry = λ dry. (refl, refl);
              kept = λ over k pose e there. there;
            }))

    -- From templates with at most one active row for each student and pose a run, finished or
    -- aborted, gets to such templates again. Every journal record names a committed template with
    -- its pose. A dry run changes no row and journals nothing, and without overwrite every template
    -- that was active stays so.
    pub import_inputs-StepReached :
        (g : Gallery)
        → Represents d g
        → StepReached settings d g (import_inputs on p settings rows issues unbindable ignored d)
    unfolding import_inputs
    import_inputs-StepReached g r =
        import_rows-StepReached settings d g on p rows start (start-Reached g r)
