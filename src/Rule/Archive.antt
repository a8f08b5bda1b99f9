-- ===== src/Rule/Archive.antt =====
-- internal/rule/archive.go
pub mod Laws
use kbdiag.Prelude.{
  ℤ, Bool, true, false, String, Option, none, some, List, [], ◌∷◌, ◌&&◌, ◌||◌, not, concat, show,
  str_eq, if◌then◌else◌,
}
use kbdiag.Facts.Base.{Floats, Times, int, str, opt_str}
use kbdiag.Facts.Archive.{Archiver, ArchiveStatus, archive_status_id, iso_time}
use kbdiag.Rule.Base.{Level, Verdict, Finding, Result, verify, judged, collected}
use kbdiag.Rule.Txn.{or_dash}
use kbdiag.Units.{duration}

-- agoOf
unfoldable pub ago_of : {F : Type 0} ⦃fl : Floats F⦄ → Option F → String
ago_of none = "at an unknown time"
ago_of (some s) = concat (duration s ∷ " ago" ∷ [])

-- a.Command == nil || *a.Command == ""
abbrev pub no_command : Option String → Bool
no_command none = true
no_command (some c) = str_eq c ""

module _ {F T : Type 0} ⦃fl : Floats F⦄ ⦃tm : Times T⦄ where
  -- archive_mode off, or a standby that archives nothing
  abbrev pub not_archiving : Archiver F T → String → Bool
  not_archiving a role =
      str_eq a.mode "off" || str_eq role "standby" && not (str_eq a.mode "always")

  -- failing: there is a failure, and no success or a success before it.
  unfoldable pub is_failing : Archiver F T → Bool
  is_failing a = elim a.last_failed_time [
    | none ↦ false
    | some failed ↦ elim a.last_archived_time [
      | none ↦ true
      | some archived ↦ tm.after failed archived
    ]
  ]

  unfoldable pub last_success : Archiver F T → String
  last_success a = elim a.last_archived_time [
    | none ↦ "it never succeeded"
    | some t ↦ concat (
        "the last success was "
        ∷ ago_of a.last_archived_age_s
        ∷ " ("
        ∷ or_dash a.last_archived_wal
        ∷ ")"
        ∷ [])
  ]

  unfoldable pub archive_finding : Archiver F T → Finding F
  archive_finding a = record {
    id = "archive.failing";
    level = Level.warn;
    symptom = concat (
        "archiving is failing: the last attempt failed ("
        ∷ or_dash a.last_failed_wal
        ∷ ", "
        ∷ ago_of a.last_failed_age_s
        ∷ ") and "
        ∷ last_success a
        ∷ "; "
        ∷ show a.failed_count
        ∷ " failures since the statistics reset. WAL that is not archived stays in sys_wal and is missing from the backups"
        ∷ []);
    evidence =
        (record {
          probe_id = archive_status_id;
          fields =
              ("archive_mode", str a.mode)
              ∷ ("failed_count", int a.failed_count)
              ∷ ("last_failed_wal", opt_str a.last_failed_wal)
              ∷ ("last_failed_time", opt_str (iso_time a.last_failed_time))
              ∷ ("archived_count", int a.archived_count)
              ∷ ("last_archived_wal", opt_str a.last_archived_wal)
              ∷ ("last_archived_time", opt_str (iso_time a.last_archived_time))
              ∷ [];
        })
        ∷ [];
    cause = none;
    next =
        verify "kbdiag space"
          "how big sys_wal has grown; why archive_command fails is in the server log (log_directory)"
        ∷ [];
  }

  -- Archive, of the first row.
  unfoldable pub judge_archiver : Archiver F T → String → Result F
  judge_archiver a role =
      if not_archiving a role
      then record { verdict = Verdict.ok; findings = [] }
      else if no_command a.command
      then record { verdict = Verdict.ok; findings = [] }
      else if not (is_failing a)
      then record { verdict = Verdict.ok; findings = [] }
      else record { verdict = Verdict.warn; findings = archive_finding a ∷ [] }

  -- Archive
  unfoldable pub archive : ArchiveStatus F T → String → Result F
  archive s role =
      let (judge, unseen) = collected s.status in
      if not judge
      then judged [] unseen
      else elim s.rows [ [] ↦ judged [] unseen | a ∷ rest ↦ judge_archiver a role ]
