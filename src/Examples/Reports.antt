-- ===== src/Examples/Reports.antt =====
-- Reports and the rows they show, at concrete facts.
use kbdiag.Prelude.{ℕ, pos, length, false, List, [], ◌∷◌, ◌++◌, select, ◌≡◌}
use kbdiag.Facts.Base.{Status, Value, int}
use kbdiag.Rule.Base.{Verdict}
use kbdiag.Report.{probe_of, is_collected}
use kbdiag.Report.Laws.{probe_of-rows, shown_length}
use kbdiag.Scenario.Session.{session, found, own_activity, own_locks}
use kbdiag.Scenario.Session.Laws.{session-verdict}
use kbdiag.Scenario.Locks.{shown_locks}
use kbdiag.Scenario.Locks.Laws.{shown_locks-relevant, is_relevant}
use kbdiag.Rule.Txn.{long_txn}
use kbdiag.Scenario.Commands.{in_txn}
use kbdiag.Scenario.Commands.Shown.{long_txn-select}
use kbdiag.Examples.Samples.{
  whole_floats, epoch_times, ascii, limits, context, idle_and_masked, only_masked, lock_rows,
  waiting_locks,
}

abbrev three_rows : List (List (Value ℕ))
three_rows = (int (pos 1) ∷ []) ∷ (int (pos 2) ∷ []) ∷ (int (pos 3) ∷ []) ∷ []

probe_of-rows_example :
    ((st : Status)
      → is_collected st ≡ false
      → ((probe_of st "" ("n" ∷ []) three_rows (pos 2)).rows ≡ [])
        × ((probe_of st "" ("n" ∷ []) three_rows (pos 2)).truncated ≡ 0))
    × ((rest : List (List (Value ℕ))) × ((probe_of Status.ok "" ("n" ∷ []) three_rows (pos 2)).rows
            ++ rest
          ≡ three_rows)
        × ((probe_of Status.ok "" ("n" ∷ []) three_rows (pos 2)).truncated ≡ length rest)
        × (length (probe_of Status.ok "" ("n" ∷ []) three_rows (pos 2)).rows
            ≡ shown_length 3 (pos 2)))
probe_of-rows_example = probe_of-rows "" ("n" ∷ []) three_rows (pos 2)

-- Pid 43 is not in the activity, and waits for a lock.
session-verdict_example :
    (session context only_masked waiting_locks (pos 43) limits).0.verdict ≡ Verdict.warn
unfolding found own_activity own_locks
session-verdict_example = session-verdict context only_masked waiting_locks (pos 43) limits

shown_locks-relevant_example : shown_locks lock_rows ≡ select (is_relevant lock_rows) lock_rows
shown_locks-relevant_example = shown_locks-relevant lock_rows

long_txn-select_example :
    long_txn (record idle_and_masked { rows = select in_txn idle_and_masked.rows }) limits
    ≡ long_txn idle_and_masked limits
long_txn-select_example = long_txn-select idle_and_masked limits
