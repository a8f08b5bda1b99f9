-- ===== src/Examples/Commands.antt =====
-- The command line, the probes' files and the tables, at concrete inputs.
use kbdiag.Prelude.{ℕ, pos, ◌+◌, ◌*◌, false, none, [], ◌∷◌, ◌≡◌, show_ℕ}
use kbdiag.Facts.Base.{Status}
use kbdiag.Facts.Table.{TableInfo, TableStat}
use kbdiag.Facts.Vacuum.{VacuumSettings}
use kbdiag.Facts.Freeze.{FreezeLimits}
use kbdiag.Rule.Base.{collected, Verdict}
use kbdiag.Rule.Names.Booleans.{parse_bool}
use kbdiag.Rule.Vacuum.{vacuum_setting, switched_off, vacuum_threshold, Singles, vacuum}
use kbdiag.Rule.Vacuum.Laws.{vacuum-verdict}
use kbdiag.Rule.Table.{judge_info, vacuum_row}
use kbdiag.Rule.Table.Laws.{judge_info-verdict}
use kbdiag.Rule.Table.Agreement.{one_stat, one_row}
use kbdiag.Examples.Samples.{whole_floats, epoch_times, ascii}

-- Whole numbers for float32.
instance abbrev pub whole_singles : Singles ℕ
whole_singles = record {
  single = λ x. x;
  single_int = λ n. elim n [ pos k ↦ k | _ ↦ 0 ];
  plus = λ a b. a + b;
  times = λ a b. a * b;
  parse = λ s. none;
  plain = show_ℕ;
}

abbrev table_info : TableInfo ℕ
table_info = record {
  oid = pos 16384;
  schemaname = "public";
  relname = "orders";
  relkind = "r";
  relpersistence = "p";
  reltuples = 100;
  relpages = pos 10;
  reloptions = "autovacuum_enabled=off" ∷ [];
  xid_age = none;
  mxid_age = none;
}

abbrev table_stat : TableStat ℕ
table_stat = record {
  n_live_tup = pos 100;
  n_dead_tup = pos 9000;
  n_mod_since_analyze = pos 0;
  last_vacuum_age_s = none;
  last_autovacuum_age_s = none;
  last_analyze_age_s = none;
  last_autoanalyze_age_s = none;
  vacuum_count = pos 0;
  autovacuum_count = pos 0;
  analyze_count = pos 0;
  autoanalyze_n = pos 0;
  seq_scan = pos 0;
  seq_tup_read = pos 0;
  idx_scan = none;
  idx_tup_fetch = none;
  n_tup_ins = pos 0;
  n_tup_upd = pos 0;
  n_tup_del = pos 0;
  n_tup_hot_upd = pos 0;
  heap_blks_read = none;
  heap_blks_hit = none;
  idx_blks_read = none;
  idx_blks_hit = none;
}

abbrev no_limits : FreezeLimits
no_limits = record { status = Status.skipped; reason = "timeout"; rows = [] }

abbrev settings : VacuumSettings ℕ
settings = record {
  status = Status.ok;
  reason = "";
  rows =
      (record {
        autovacuum = "on";
        track_counts = "on";
        threshold = pos 50;
        scale_factor = 0;
        naptime_s = pos 60;
        max_workers = pos 3;
      })
      ∷ [];
}

vacuum-verdict_example :
    (vacuum (one_row (vacuum_row table_info table_stat)) settings "primary" "shop").verdict
    ≡ Verdict.warn
unfolding vacuum_setting switched_off collected vacuum_threshold vacuum_row parse_bool
vacuum-verdict_example =
    vacuum-verdict ℕ (one_row (vacuum_row table_info table_stat)) settings "primary" "shop"

judge_info-verdict_example :
    (judge_info table_info false (one_stat table_stat) no_limits settings "primary" "shop").verdict
    ≡ Verdict.warn
unfolding vacuum_setting switched_off collected vacuum_threshold vacuum_row parse_bool
judge_info-verdict_example =
    judge_info-verdict table_info (one_stat table_stat) no_limits settings "primary" "shop"
