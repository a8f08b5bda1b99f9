-- ===== src/Rule/Archive/Laws.antt =====
-- internal/rule/archive.go: when archiving is called failing.
use kbdiag.Prelude.{
  Bool, true, false, String, List, [], ◌∷◌, ◌&&◌, ◌||◌, not, str_eq, ◌≡◌, arith, if◌then◌else◌,
}
use kbdiag.Facts.Base.{Status, Floats, Times}
use kbdiag.Facts.Archive.{Archiver, ArchiveStatus}
use kbdiag.Rule.Base.{Verdict, collected}
use kbdiag.Rule.Verdicts.{verdict_of_levels}
use kbdiag.Rule.Archive.{archive, judge_archiver, is_failing, no_command}

module _ {F T : Type 0} ⦃fl : Floats F⦄ ⦃tm : Times T⦄ where
  -- The node archives: the mode is on, or always; a standby only with always.
  abbrev pub archives : Archiver F T → String → Bool
  archives a role =
      not (str_eq a.mode "off") && (not (str_eq role "standby") || str_eq a.mode "always")

  -- Archiving that is set up, and whose last failure no success follows.
  abbrev pub is_stuck : List (Archiver F T) → String → Bool
  is_stuck [] role = false
  is_stuck (a ∷ rest) role = archives a role && not (no_command a.command) && is_failing a

  abbrev pub archive_verdict : ArchiveStatus F T → String → Status → Verdict
  archive_verdict s role Status.ok = if is_stuck s.rows role then Verdict.warn else Verdict.ok
  archive_verdict s role Status.not_applicable = Verdict.ok
  archive_verdict s role _ = Verdict.unknown

  -- The archive rule says WARN exactly when the node archives (its mode is not off, and on a
  -- standby it is always), a command is set and the last failure comes after the last success or
  -- there is no success; else UNKNOWN when the probe was skipped or failed, and else OK. It never
  -- says FAIL.
  pub archive-verdict :
      (s : ArchiveStatus F T) (role : String)
      → (archive s role).verdict ≡ archive_verdict s role s.status
  unfolding archive judge_archiver collected
  archive-verdict s role =
      ground (arith, verdict_of_levels {F = F} [] true, verdict_of_levels {F = F} [] false)
