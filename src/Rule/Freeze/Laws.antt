-- ===== src/Rule/Freeze/Laws.antt =====
-- internal/rule/freeze.go: the level of a database by its ages, and the verdict of Freeze.
use kbdiag.Prelude.{
  leb_ℤ, String, Bool, true, false, Option, none, some, is_some, List, [], ◌&&◌, ◌||◌, not, any,
  ◌≡◌, arith,
}
use kbdiag.Unicode.{Unicode}
use kbdiag.Facts.Base.{Status}
use kbdiag.Facts.Freeze.{
  FrozenDatabase, FreezeDatabases, FreezeLimit, FreezeLimits, xid_stop_age, mxid_stop_age,
}
use kbdiag.Rule.Base.{Verdict, is_hidden, collected, findings_of}
use kbdiag.Rule.Verdicts.{level_verdict, verdict_of_levels}
use kbdiag.Rule.Loops.{warns, fails, verdict-loop, any-cong}
use kbdiag.Rule.Freeze.{
  freeze, freeze_limit, judge_database, age_finding, fail_texts, warn_texts, past,
}

-- At a stop limit, where the server refuses new ids.
abbrev pub is_stopped : FrozenDatabase → Bool
is_stopped x = leb_ℤ xid_stop_age x.xid_age || leb_ℤ mxid_stop_age x.mxid_age

-- At the age at which the anti-wraparound autovacuum is due; not known without the limits.
abbrev pub is_due : Option FreezeLimit → FrozenDatabase → Bool
is_due none x = false
is_due (some l) x = leb_ℤ l.freeze_max_age x.xid_age || leb_ℤ l.multi_freeze_max_age x.mxid_age

module _ (F : Type 0) ⦃u : Unicode⦄ where
  judge_database-levels :
      (lim : Option FreezeLimit) (role : String) (x : FrozenDatabase)
      → (fails (judge_database {F = F} lim role x) ≡ is_stopped x)
        × (warns (judge_database {F = F} lim role x) ≡ (not (is_stopped x) && is_due lim x))
        × (is_hidden (judge_database {F = F} lim role x)
            ≡ (not (is_stopped x) && not (is_some lim)))
  unfolding judge_database age_finding fail_texts warn_texts past
  judge_database-levels lim role x = ground arith

  -- What the verdict of the freeze rule is, by the probe's status, the limits and the rows.
  abbrev pub freeze_verdict : Option FreezeLimit → Status → List FrozenDatabase → Verdict
  freeze_verdict lim Status.not_applicable rows = Verdict.ok
  freeze_verdict lim Status.ok rows =
      level_verdict (any is_stopped rows) (any (λ x. not (is_stopped x) && is_due lim x) rows)
        (any (λ x. not (is_stopped x) && not (is_some lim)) rows)
  freeze_verdict lim _ rows = Verdict.unknown

  -- The freeze rule says FAIL exactly when a database is at a stop limit of its transaction IDs or
  -- multixacts, else WARN when one is at the age where the anti-wraparound autovacuum is due, else
  -- UNKNOWN when there is a database and the limits are not known or the probe was skipped or
  -- failed, and else OK.
  pub freeze-verdict :
      (d : FreezeDatabases) (l : FreezeLimits) (role : String)
      → (freeze {F = F} d l role).verdict ≡ freeze_verdict (freeze_limit l) d.status d.rows
  unfolding freeze collected findings_of
  freeze-verdict d l role =
      let lim = freeze_limit l in
      let judge = judge_database {F = F} lim role in
      ground (
        arith,
        verdict-loop judge d.rows (any (λ x. is_hidden (judge x)) d.rows),
        any-cong (λ x. fails (judge x)) is_stopped d.rows
            (λ x. (judge_database-levels lim role x).0),
        any-cong (λ x. warns (judge x)) (λ x. not (is_stopped x) && is_due lim x) d.rows
            (λ x. (judge_database-levels lim role x).1),
        any-cong (λ x. is_hidden (judge x)) (λ x. not (is_stopped x) && not (is_some lim)) d.rows
            (λ x. (judge_database-levels lim role x).2),
        verdict_of_levels {F = F} [] true,
        verdict_of_levels {F = F} [] false,
      )
