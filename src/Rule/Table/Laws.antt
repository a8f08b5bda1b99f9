-- ===== src/Rule/Table/Laws.antt =====
-- internal/rule/table.go: the verdict of Table.
use kbdiag.Prelude.{
  ℤ, leb_ℤ, Bool, true, false, String, Option, none, some, is_some, List, [], ◌∷◌, ◌++◌, ◌&&◌, ◌||◌,
  not, any, any-append, str_eq, if◌then◌else◌, ◌≡◌, refl, arith,
}
use kbdiag.Unicode.{Unicode}
use kbdiag.Facts.Base.{Floats}
use kbdiag.Facts.Freeze.{FreezeLimit, FreezeLimits, xid_stop_age, mxid_stop_age}
use kbdiag.Facts.Table.{TableInfo, TableStat, TableStats}
use kbdiag.Facts.Vacuum.{VacuumSetting, VacuumSettings}
use kbdiag.Rule.Base.{Finding, judged, Verdict, Seen, collected, is_hidden, verdict_of}
use kbdiag.Rule.Verdicts.{is_fail, is_warn, level_verdict, verdict_of_levels}
use kbdiag.Rule.Freeze.{age_finding, fail_texts, warn_texts, past, freeze_limit}
use kbdiag.Rule.Vacuum.{Singles, vacuum_setting, switched_off, vacuum_disabled, table_disabled}
use kbdiag.Rule.Vacuum.Threshold.{is_enabled, limit_of, is_stopped, vacuum_threshold-parts}
use kbdiag.Rule.Table.{
  judge_info, judge_age, aged, mxid_or_zero, found, judge_dead, primary_findings, vacuum_row,
}

level-absorb : (a b u : Bool) → level_verdict a (not a && b) u ≡ level_verdict a b u
level-absorb a b u = ground arith

level-absorb_or :
    (a b c u : Bool) → level_verdict a (not a && b || c) u ≡ level_verdict a (b || c) u
level-absorb_or a b c u = ground arith

-- Findings after which more were appended, none of them FAIL.
verdict-append :
    {F : Type 0} (fs gs : List (Finding F)) (u : Bool)
    → any is_fail gs ≡ false
    → verdict_of (fs ++ gs) u ≡ level_verdict (any is_fail fs) (any is_warn fs || any is_warn gs) u
verdict-append fs gs u h =
    ground
      (arith, verdict_of_levels (fs ++ gs) u, any-append is_fail fs gs, any-append is_warn fs gs)

-- At a stop limit, where the server refuses new ids.
abbrev pub age_stopped : ℤ → ℤ → Bool
age_stopped xid mxid = leb_ℤ xid_stop_age xid || leb_ℤ mxid_stop_age mxid

abbrev pub age_due : Option FreezeLimit → ℤ → ℤ → Bool
age_due none xid mxid = false
age_due (some l) xid mxid = leb_ℤ l.freeze_max_age xid || leb_ℤ l.multi_freeze_max_age mxid

module _ {F : Type 0} where
  abbrev pub table_stopped : TableInfo F → Bool
  table_stopped t = elim t.xid_age [
    | none ↦ false
    | some x ↦ age_stopped x (mxid_or_zero t.mxid_age)
  ]

  abbrev pub table_due : Option FreezeLimit → TableInfo F → Bool
  table_due lim t = elim t.xid_age [
    | none ↦ false
    | some x ↦ age_due lim x (mxid_or_zero t.mxid_age)
  ]

  -- The age could not be judged: it is below the stop limits and the others are not known.
  abbrev pub table_blind : Option FreezeLimit → TableInfo F → Bool
  table_blind lim t = is_some t.xid_age && not (table_stopped t) && not (is_some lim)

  judge_age-levels :
      (l : FreezeLimits) (db : String) (t : TableInfo F)
      → (any is_fail (found (judge_age l db t)) ≡ table_stopped t)
        × (any is_warn (found (judge_age l db t))
            ≡ (not (table_stopped t) && table_due (freeze_limit l) t))
        × (is_hidden (judge_age l db t) ≡ table_blind (freeze_limit l) t)
  unfolding judge_age aged age_finding fail_texts warn_texts past
  judge_age-levels l db t = ground arith

module _ {F : Type 0} ⦃u : Unicode⦄ ⦃sg : Singles F⦄ ⦃fl : Floats F⦄ where
  -- Autovacuum is off for the table, which has more dead tuples than its threshold.
  abbrev pub dead_uncleaned : TableInfo F → VacuumSetting F → List (TableStat F) → Bool
  dead_uncleaned t set [] = false
  dead_uncleaned t set (s ∷ rest) =
      let x = vacuum_row t s in
      not (is_enabled x) && fl.lt (limit_of x set) (sg.single_int x.n_dead_tup)

  abbrev pub table_warns : Bool → TableInfo F → TableStats F → Option (VacuumSetting F) → Bool
  table_warns sj t s none = false
  table_warns sj t s (some set) = is_stopped set || sj && dead_uncleaned t set s.rows

  judge_dead-levels :
      (db : String) (t : TableInfo F) (set : VacuumSetting F) (rows : List (TableStat F))
      → (any is_fail (judge_dead db t set rows) ≡ false)
        × (any is_warn (judge_dead db t set rows) ≡ dead_uncleaned t set rows)
  unfolding judge_dead table_disabled
  judge_dead-levels db t set [] = (refl, refl)
  judge_dead-levels db t set (s ∷ rest) =
      ground (arith, vacuum_threshold-parts (vacuum_row t s) set)

  primary_findings-levels :
      (sj : Bool) (db : String) (t : TableInfo F) (s : TableStats F)
      (set : Option (VacuumSetting F))
      → (any is_fail (primary_findings sj db t s set) ≡ false)
        × (any is_warn (primary_findings sj db t s set) ≡ table_warns sj t s set)
  unfolding primary_findings vacuum_disabled switched_off
  primary_findings-levels sj db t s none = (refl, refl)
  primary_findings-levels sj db t s (some set) = ground (arith, judge_dead-levels db t set s.rows)

  -- What a table's row comes to, on a standby and elsewhere.
  abbrev pub info_verdict :
      TableInfo F → TableStats F → Option FreezeLimit → Option (VacuumSetting F) → Bool → Verdict
  info_verdict t s lim set true =
      level_verdict (table_stopped t) (table_due lim t) (table_blind lim t)
  info_verdict t s lim set false =
      level_verdict (table_stopped t)
        (table_due lim t || table_warns (collected s.status).0 t s set)
        (table_blind lim t || (collected s.status).1 || not (is_some set))

  -- The table rule on a table that was read: FAIL exactly when the table's age is at a stop limit;
  -- else WARN when its age is at the limit of the anti-wraparound autovacuum, or, off a standby,
  -- autovacuum or track_counts is off for the server, or autovacuum is off for the table and it has
  -- more dead tuples than its threshold; else UNKNOWN when the limits its age needs, or, off a
  -- standby, the statistics or the settings could not be read; and else OK.
  pub judge_info-verdict :
      (t : TableInfo F) (s : TableStats F) (l : FreezeLimits) (v : VacuumSettings F)
      (role db : String)
      → (judge_info t false s l v role db).verdict
        ≡ info_verdict t s (freeze_limit l) (vacuum_setting v) (str_eq role "standby")
  unfolding judge_info
  judge_info-verdict t s l v role db = go (str_eq role "standby")
    where
      age : Seen F
      age = judge_age l db t

      set : Option (VacuumSetting F)
      set = vacuum_setting v

      more : List (Finding F)
      more = primary_findings (collected s.status).0 db t s set

      go :
          (b : Bool)
          → (if b
              then judged (found age) (false || is_hidden age)
              else judged
                  (found age ++ more)
                  (false || is_hidden age || (collected s.status).1 || not (is_some set))).verdict
            ≡ info_verdict t s (freeze_limit l) set b
      go true = cc (
        verdict_of_levels (found age) (is_hidden age),
        (judge_age-levels l db t).0,
        (judge_age-levels l db t).1,
        (judge_age-levels l db t).2,
        level-absorb (table_stopped t) (table_due (freeze_limit l) t) (is_hidden age),
      )
      go false = cc (
        verdict-append (found age) more
            (is_hidden age || (collected s.status).1 || not (is_some set))
            (primary_findings-levels (collected s.status).0 db t s set).0,
        (judge_age-levels l db t).0,
        (judge_age-levels l db t).1,
        (judge_age-levels l db t).2,
        (primary_findings-levels (collected s.status).0 db t s set).1,
        level-absorb_or (table_stopped t) (table_due (freeze_limit l) t)
            (table_warns (collected s.status).0 t s set)
            (is_hidden age || (collected s.status).1 || not (is_some set)),
      )
