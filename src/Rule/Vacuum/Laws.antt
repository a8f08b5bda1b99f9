-- ===== src/Rule/Vacuum/Laws.antt =====
-- internal/rule/vacuum.go: the verdict of Vacuum.
use kbdiag.Prelude.{
  Bool, false, String, Option, none, some, is_some, List, ◌&&◌, ◌||◌, not, any, str_eq,
  if◌then◌else◌, ◌≡◌, refl, arith,
}
use kbdiag.Unicode.{Unicode}
use kbdiag.Facts.Base.{Floats}
use kbdiag.Facts.Vacuum.{VacuumTable, VacuumTables, VacuumSetting, VacuumSettings}
use kbdiag.Rule.Base.{Verdict, collected}
use kbdiag.Rule.Verdicts.{is_fail, is_warn, level_verdict, verdict_of_levels}
use kbdiag.Rule.Loops.{
  warns, fails, any-cong, any-false, any-fail-findings_of, any-warn-findings_of,
}
use kbdiag.Rule.Vacuum.{
  Singles, vacuum, vacuum_findings, vacuum_setting, switched_off, vacuum_disabled, judge_table,
  table_disabled,
}
use kbdiag.Rule.Vacuum.Threshold.{is_enabled, limit_of, is_stopped, vacuum_threshold-parts}

module _ (F : Type 0) ⦃u : Unicode⦄ ⦃sg : Singles F⦄ ⦃fl : Floats F⦄ where
  -- Past its threshold of dead tuples, with autovacuum off for it.
  abbrev pub is_neglected : VacuumSetting F → VacuumTable F → Bool
  is_neglected set x =
      not (is_enabled x) && not (fl.le (sg.single_int x.n_dead_tup) (limit_of x set))

  judge_table-levels :
      (db : String) (set : VacuumSetting F) (x : VacuumTable F)
      → (fails (judge_table db set x) ≡ false) × (warns (judge_table db set x) ≡ is_neglected set x)
  unfolding judge_table table_disabled
  judge_table-levels db set x = ground (arith, vacuum_threshold-parts x set)

  -- What Vacuum warns of.
  abbrev pub vacuum_warns : Bool → Option (VacuumSetting F) → List (VacuumTable F) → Bool
  vacuum_warns judge none rows = false
  vacuum_warns judge (some set) rows = is_stopped set || judge && any (is_neglected set) rows

  vacuum_findings-levels :
      (judge : Bool) (db : String) (t : VacuumTables F) (set : Option (VacuumSetting F))
      → (any is_fail (vacuum_findings judge db t set) ≡ false)
        × (any is_warn (vacuum_findings judge db t set) ≡ vacuum_warns judge set t.rows)
  unfolding vacuum_findings vacuum_disabled switched_off
  vacuum_findings-levels judge db t none = (refl, refl)
  vacuum_findings-levels judge db t (some set) =
      let j = judge_table db set in
      ground (
        arith,
        any-fail-findings_of j t.rows,
        any-warn-findings_of j t.rows,
        any-false j (λ x. fails (j x)) t.rows (λ x. (judge_table-levels db set x).0),
        any-cong (λ x. warns (j x)) (is_neglected set) t.rows
            (λ x. (judge_table-levels db set x).1),
      )

  -- The vacuum rule says OK on a standby. Elsewhere it says WARN exactly when autovacuum or
  -- track_counts is known to be off for the server, or the settings are known, the tables were read
  -- and one of them has autovacuum off, by the last of its storage options that sets it, and dead
  -- tuples past its threshold, of its own options or else the server's settings; else UNKNOWN when
  -- the settings are not known or the tables were skipped or failed; and else OK.
  pub vacuum-verdict :
      (t : VacuumTables F) (s : VacuumSettings F) (role db : String)
      → (vacuum t s role db).verdict ≡ (
          if str_eq role "standby"
          then Verdict.ok
          else level_verdict false
              (vacuum_warns (collected t.status).0 (vacuum_setting s) t.rows)
              ((collected t.status).1 || not (is_some (vacuum_setting s))))
  unfolding vacuum
  vacuum-verdict t s role db =
      let judge = (collected t.status).0 in
      let set = vacuum_setting s in
      ground (
        arith,
        verdict_of_levels (vacuum_findings judge db t set)
            ((collected t.status).1 || not (is_some set)),
        vacuum_findings-levels judge db t set,
      )
