-- ===== src/Cli.antt =====
-- cmd/kbdiag/main.go: exit codes, the connection of a command, and which probes and which scenario a
-- command runs. The flags are parsed by cobra: what it makes of the arguments is `Parsed`. The
-- connection (pgx), the SQL of the probes, the clock and the output enter as the record `Host`.
pub mod Outside
pub mod Arguments
pub mod Commands
pub mod Laws
pub mod Unreadable
pub mod Clean
use kbdiag.Prelude.{
  ℕ, ℤ, pos, leb_ℤ, ◌==◌, String, Bool, true, false, Option, none, some, List, [], ◌∷◌, ◌++◌, map,
  concat, if◌then◌else◌,
}
use kbdiag.Facts.Base as Facts
use kbdiag.Conn.{Config}
use kbdiag.Rule.Base.{Verdict}
use kbdiag.Report.{Report, exit_code}
use kbdiag.Conn.Failures.{Failure, Attempt, done, failed}
use kbdiag.Cli.Outside.{Host}

abbrev pub exit_usage : ℕ
exit_usage = 64

abbrev pub exit_unavailable : ℕ
exit_unavailable = 69

-- The error that a command returns: cobra's own or a plain one, or an exitError.
pub data CommandError : Type 0 where
  usage : String → CommandError
  exit_error : ℕ → Option String → CommandError

-- What a command comes to: its error, and what it wrote to stderr.
pub record Ran : Type 0 where
  pub error : Option CommandError
  pub notes : List String

-- run: the exit code
unfoldable pub run_code : Ran → ℕ
run_code r = elim r.error [
  | none ↦ 0
  | some e ↦ elim e [ usage why ↦ exit_usage | exit_error code why ↦ code ]
]

-- run: the lines on stderr
unfoldable pub run_notes : Ran → List String
run_notes r = elim r.error [
  | none ↦ r.notes
  | some e ↦ elim e [
    | usage why ↦
        r.notes ++ (concat ("kbdiag: " ∷ why ∷ []) ∷ "Run 'kbdiag --help' for usage." ∷ [])
    | exit_error code why ↦ elim why [
      | none ↦ r.notes
      | some w ↦ r.notes ++ (concat ("kbdiag: " ∷ w ∷ []) ∷ [])
    ]
  ]
]

-- globalFlags
pub record GlobalFlags : Type 0 where
  pub cfg : Config
  pub json : Bool

module _ {X F T : Type 0} (h : Host X F T) where
  -- PersistentPreRunE
  unfoldable pub check_timeout : GlobalFlags → Option CommandError
  check_timeout g =
      if leb_ℤ g.cfg.query_timeout (pos 0)
      then some (
          usage (
            concat ("--timeout must be positive, got " ∷ h.duration_text g.cfg.query_timeout ∷ [])))
      else none

  -- write
  unfoldable pub write : Report F → Bool → Option CommandError
  write r json = elim (h.print json r) [
    | some why ↦ some (exit_error 3 (some why))
    | none ↦
        let code = exit_code r.verdict in if code == 0 then none else some (exit_error code none)
  ]

  -- The end of diagnose, once the instance answered what it is, or did not.
  unfoldable pub identified :
      GlobalFlags → (Facts.Context T → Report F × List String) → Attempt (Facts.Context T) → Ran
  unfolding write
  identified g build (failed e) = record {
    error = some (
        exit_error (exit_code Verdict.unknown)
          (some (concat ("identify instance: " ∷ e.text ∷ []))));
    notes = [];
  }
  identified g build (done c) =
      let (r, notes) = build c in record { error = write r g.json; notes = notes }

  -- diagnose, of what conn.Open came to
  unfoldable pub connected :
      GlobalFlags → (X → Facts.Context T → Report F × List String) → Attempt X → Ran
  unfolding identified
  connected g build (failed e) = record {
    error = some (exit_error exit_unavailable (some e.text));
    notes = [];
  }
  connected g build (done x) = identified g (build x) (h.identify x g.cfg)

  -- diagnose
  unfoldable pub diagnose : GlobalFlags → (X → Facts.Context T → Report F × List String) → Ran
  unfolding connected
  diagnose g build = connected g build (h.connect g.cfg)
