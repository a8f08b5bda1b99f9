-- ===== src/Examples/Rules.antt =====
-- The verdict of a rule's findings, of merged rules, and of the rules on sessions and storage, at
-- concrete rows.
use kbdiag.Prelude.{ℕ, pos, ◌+ℤ◌, ◌-ℤ◌, true, none, some, is_some, [], ◌∷◌, ◌≡◌, ◌↔◌, ◌≤◌, refl}
use kbdiag.Facts.Base.{Status}
use kbdiag.Facts.Session.{masked, untracked}
use kbdiag.Facts.Freeze.{FreezeDatabases, FreezeLimits}
use kbdiag.Facts.Seq.{Sequence, SeqList}
use kbdiag.Rule.Base.{Level, Verdict, Finding, verdict_of, merge}
use kbdiag.Rule.Verdicts.{verdict_of_levels, merge-worst, worst}
use kbdiag.Rule.Sessions.{sessions}
use kbdiag.Rule.Sessions.Laws.{sessions-verdict, sessions-IsJudged}
use kbdiag.Rule.Locks.{locks}
use kbdiag.Rule.Locks.Laws.{locks-verdict, locks-IsJudged}
use kbdiag.Rule.Seq.{seq, seq_left, values_left, share_used, room, span}
use kbdiag.Rule.Seq.Nextval.{nextval, calls, seq_left-calls}
use kbdiag.Rule.Seq.Laws.{seq-verdict}
use kbdiag.Rule.Freeze.{freeze}
use kbdiag.Rule.Freeze.Laws.{freeze-verdict}
use kbdiag.Examples.Samples.{
  whole_floats, epoch_times, ascii, limits, idle_and_masked, only_masked, waiting_locks,
  sequence_of,
}

abbrev warning : Finding ℕ
warning = record {
  id = "session.idle_in_txn";
  level = Level.warn;
  symptom = "idle";
  evidence = [];
  cause = none;
  next = [];
}

verdict_of_levels_example : verdict_of (warning ∷ []) true ≡ Verdict.warn
verdict_of_levels_example = verdict_of_levels (warning ∷ []) true

merge-worst_example :
    (merge (sessions only_masked limits ∷ locks waiting_locks limits ∷ [])).verdict
    ≡ worst (sessions only_masked limits ∷ locks waiting_locks limits ∷ [])
merge-worst_example =
    merge-worst (sessions only_masked limits ∷ locks waiting_locks limits ∷ [])
      (sessions-IsJudged only_masked limits, (locks-IsJudged waiting_locks limits, tt))

sessions-verdict_example : (sessions idle_and_masked limits).verdict ≡ Verdict.warn
unfolding masked untracked
sessions-verdict_example = sessions-verdict idle_and_masked limits

locks-verdict_example : (locks waiting_locks limits).verdict ≡ Verdict.warn
locks-verdict_example = locks-verdict waiting_locks limits

abbrev tens : Sequence
tens = sequence_of 100 10 (some (pos 75))

seq_left-tens : seq_left ⦃fl = whole_floats⦄ tens ≡ some (2, 0)
unfolding seq_left values_left share_used room span ◌-ℤ◌
seq_left-tens = refl

seq_left-calls_example : (is_some (calls tens 2 (pos 75)) ≡ true) ↔ (2 ≤ 2)
seq_left-calls_example = seq_left-calls ⦃fl = whole_floats⦄ tens (pos 75) 2 0 refl seq_left-tens 2

abbrev used_up : SeqList
used_up = record { status = Status.ok; reason = ""; rows = sequence_of 100 10 (some (pos 95)) ∷ [] }

seq-verdict_example : (seq ⦃fl = whole_floats⦄ used_up "primary").verdict ≡ Verdict.fail
unfolding nextval ◌+ℤ◌
seq-verdict_example = seq-verdict ℕ used_up "primary"

-- At the stop limit of transaction IDs, with the limits not collected.
abbrev frozen_out : FreezeDatabases
frozen_out = record {
  status = Status.ok;
  reason = "";
  rows =
      (record {
        datname = "orders";
        dat_frozen_xid = 3;
        xid_age = pos 2146483647;
        dat_min_mxid = 1;
        mxid_age = pos 0;
        allow_conn = true;
      })
      ∷ [];
}

abbrev no_limits : FreezeLimits
no_limits = record { status = Status.skipped; reason = "privilege"; rows = [] }

freeze-verdict_example : (freeze {F = ℕ} frozen_out no_limits "primary").verdict ≡ Verdict.fail
freeze-verdict_example = freeze-verdict ℕ frozen_out no_limits "primary"
