-- ===== src/Cli/Laws.antt =====
-- cmd/kbdiag/main.go: the exit codes.
use kbdiag.Prelude.{
  ℕ, pos, leb_ℤ, String, Bool, true, false, Option, none, some, is_some, List, ◌||◌, not, ◌≡◌, ◌⊎◌,
  str_eq, refl, arith,
}
use kbdiag.Unicode.{Unicode}
use kbdiag.Facts.Base as Facts
use kbdiag.Facts.Base.{Floats, Times}
use kbdiag.Rule.Base.{Verdict}
use kbdiag.Rule.Names.{is_empty}
use kbdiag.Rule.Vacuum.{Singles}
use kbdiag.Report.{Report, exit_code}
use kbdiag.Conn.Failures.{Attempt, done, failed}
use kbdiag.Cli.Outside.{Host}
use kbdiag.Cli.Arguments.{parse_pid}
use kbdiag.Cli.{Ran, GlobalFlags, write, diagnose, identified, connected, run_code}
use kbdiag.Cli.Commands.{Command, session, table, top, Parsed, refused, parsed, in_repmgr_db}

-- ExitCode, as the documentation numbers the verdicts.
abbrev pub verdict_code : Verdict → ℕ
verdict_code Verdict.ok = 0
verdict_code Verdict.warn = 1
verdict_code Verdict.fail = 2
verdict_code Verdict.unknown = 3

-- The code of a report with this verdict, and the error of printing it, if any.
abbrev pub printed_code : Option String → Verdict → ℕ
printed_code (some why) v = 3
printed_code none v = verdict_code v

module _ {X F T : Type 0} (h : Host X F T) where
  -- The code of a server that was reached, of what it says it is.
  abbrev pub told_code :
      GlobalFlags → (Facts.Context T → Report F × List String) → Attempt (Facts.Context T) → ℕ
  told_code g build (failed e) = 3
  told_code g build (done c) = printed_code (h.print g.json (build c).0) (build c).0.verdict

  abbrev pub reached_code :
      GlobalFlags → (X → Facts.Context T → Report F × List String) → Attempt X → ℕ
  reached_code g build (failed e) = 69
  reached_code g build (done x) = told_code g (build x) (h.identify x g.cfg)

  -- The code that a diagnosis with these flags stands for: 69 for a server that is not reached, 3 for
  -- an instance that does not say what it is, and else that of the report.
  abbrev pub outcome_code : GlobalFlags → (X → Facts.Context T → Report F × List String) → ℕ
  outcome_code g build = reached_code g build (h.connect g.cfg)

  write-code :
      (r : Report F) (json : Bool) (notes : List String)
      → run_code (record { error = write h r json; notes = notes })
        ≡ printed_code (h.print json r) r.verdict
  unfolding write run_code exit_code
  write-code r json notes = ground arith

  identified-code :
      (g : GlobalFlags) (build : Facts.Context T → Report F × List String)
      (a : Attempt (Facts.Context T))
      → run_code (identified h g build a) ≡ told_code g build a
  unfolding identified run_code exit_code
  identified-code g build (failed e) = refl
  identified-code g build (done c) = write-code (build c).0 g.json (build c).1

  connected-code :
      (g : GlobalFlags) (build : X → Facts.Context T → Report F × List String) (a : Attempt X)
      → run_code (connected h g build a) ≡ reached_code g build a
  unfolding connected run_code
  connected-code g build (failed e) = refl
  connected-code g build (done x) = identified-code g (build x) (h.identify x g.cfg)

  pub diagnose-code :
      (g : GlobalFlags) (build : X → Facts.Context T → Report F × List String)
      → run_code (diagnose h g build) ≡ outcome_code g build
  unfolding diagnose
  diagnose-code g build = connected-code g build (h.connect g.cfg)

  -- The command was a diagnosis, with its own flags or those for repmgr's database.
  pub record IsDiagnosis (g : GlobalFlags) (r : Ran) : Type 0 where
    pub flags : GlobalFlags
    pub build : X → Facts.Context T → Report F × List String
    pub own : (flags ≡ g) ⊎ (flags ≡ in_repmgr_db g)
    pub ran : r ≡ diagnose h flags build
    pub code : run_code r ≡ outcome_code flags build

  -- How a command ends: with 64 where its arguments are bad, and elsewhere as its diagnosis.
  abbrev pub EndsAs : Bool → GlobalFlags → Ran → Type 0
  EndsAs true g r = run_code r ≡ 64
  EndsAs false g r = IsDiagnosis g r

module _ {X F T : Type 0} (h : Host X F T) ⦃fl : Floats F⦄ ⦃tm : Times T⦄ ⦃u : Unicode⦄
    ⦃sg : Singles F⦄ where
  -- The values of --by.
  abbrev pub is_order : String → Bool
  is_order by =
      str_eq by "time"
      || str_eq by "mean"
      || str_eq by "calls"
      || str_eq by "io"
      || str_eq by "temp"

  -- The arguments of a command that it refuses.
  abbrev pub is_bad : Command F → Bool
  is_bad (session arg th) = not (is_some (parse_pid arg))
  is_bad (table name) = is_empty (u.trim_space name)
  is_bad (top limit by) = not (is_order by)
  is_bad _ = false

  -- How an invocation ends: with 64 where cobra refuses the arguments, the timeout is not positive or
  -- the command's arguments are bad.
  abbrev pub EndsWell : Parsed F → Ran → Type 0
  EndsWell (refused why) r = run_code r ≡ 64
  EndsWell (parsed g cmd) r = EndsAs h (leb_ℤ g.cfg.query_timeout (pos 0) || is_bad cmd) g r
