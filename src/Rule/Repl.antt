-- ===== src/Rule/Repl.antt =====
-- internal/rule/repl.go: Repl, syncShort, SyncStreaming.
pub mod Laws
use kbdiag.Prelude.{
  ℕ, ℤ, pos, leb_ℤ, eqb_ℤ, length, Bool, true, false, String, Option, none, some, List, [], ◌∷◌,
  ◌++◌, ◌&&◌, ◌||◌, not, concat, show, show_ℕ, str_eq, if◌then◌else◌,
}
use kbdiag.Unicode.{Unicode}
use kbdiag.Facts.Base.{Floats, int, str, strs, bool, opt_str, opt_int}
use kbdiag.Facts.Inst.{InstUpstream}
use kbdiag.Facts.Repl.{
  Replica, ReplDownstreams, SyncSetting, ReplSync, Replay, ReplReplay, repl_replay_id, repl_sync_id,
}
use kbdiag.Facts.Session.{is_text}
use kbdiag.Rule.Base.{
  Level, Finding, Result, Seen, hidden, quiet, flagged, verify, fix, judged, collected, findings_of,
}
use kbdiag.Rule.Inst.{upstream, finding_of, dark}
use kbdiag.Rule.Txn.{or_dash}
use kbdiag.Rule.SyncNames.{parse_sync_names}

module _ {F : Type 0} where
  unfoldable pub paused_finding : Replay F → Finding F
  paused_finding p = record {
    id = "repl.replay_paused";
    level = Level.warn;
    symptom =
        "WAL replay is paused on this standby (sys_wal_replay_pause()): queries still run, but it falls further behind, and a failover would first have to replay everything received";
    evidence =
        (record {
          probe_id = repl_replay_id;
          fields =
              ("replay_paused", bool true)
              ∷ ("receive_lsn", opt_str p.receive_lsn)
              ∷ ("replay_lsn", opt_str p.replay_lsn)
              ∷ ("replay_gap_bytes", opt_int p.replay_gap_bytes)
              ∷ [];
        })
        ∷ [];
    cause = none;
    next = fix "SELECT sys_wal_replay_resume()" "unless replay was paused on purpose" ∷ [];
  }

  unfoldable pub judge_replay : Replay F → Seen F
  judge_replay p = if p.replay_paused then flagged (paused_finding p) else quiet

  abbrev pub is_candidate : Replica F → Bool
  is_candidate r = is_text r.sync_state "sync" || is_text r.sync_state "quorum"

  -- The loop of SyncStreaming.
  unfoldable pub streaming_names : List (Replica F) → List String
  streaming_names [] = []
  streaming_names (r ∷ rs) =
      let rest = streaming_names rs in
      if is_candidate r then or_dash r.application_name ∷ rest else rest

  -- SyncStreaming
  unfoldable pub sync_streaming : ReplDownstreams F → List String
  unfolding streaming_names
  sync_streaming d = streaming_names d.rows

  unfoldable pub short_finding : SyncSetting → String → ℤ → List String → Finding F
  short_finding set names need streaming = record {
    id = "repl.sync_short";
    level = Level.warn;
    symptom = concat (
        "synchronous_standby_names '"
        ∷ names
        ∷ "' needs "
        ∷ show need
        ∷ " synchronous "
        ∷ (if eqb_ℤ need (pos 1) then "standby" else "standbys")
        ∷ ", but the server counts "
        ∷ show_ℕ (length streaming)
        ∷ " as synchronous candidates: commits either wait or the server no longer waits for a standby, so the synchronous copy is not guaranteed"
        ∷ []);
    evidence =
        (record {
          probe_id = repl_sync_id;
          fields =
              ("synchronous_standby_names", str names)
              ∷ ("synchronous_commit", str set.commit)
              ∷ ("required", int need)
              ∷ ("candidates", strs streaming)
              ∷ [];
        })
        ∷ [];
    cause = none;
    next =
        verify "kbdiag slots" "whether the missing standby's slot is inactive"
        ∷ verify "kbdiag status" "run on the missing standby: is it receiving WAL"
        ∷ [];
  }

-- *set.StandbyNames, or "".
abbrev pub or_empty : Option String → String
or_empty none = ""
or_empty (some s) = s

-- Commits wait for standbys at these values of synchronous_commit.
abbrev pub waits_for_standbys : String → Bool
waits_for_standbys commit =
    str_eq commit "on" || str_eq commit "remote_write" || str_eq commit "remote_apply"

module _ {F : Type 0} ⦃u : Unicode⦄ where
  -- syncShort of the walsenders, once the number that is needed is known.
  unfoldable pub compare_streaming : ReplDownstreams F → SyncSetting → String → ℤ → Seen F
  compare_streaming d set names need =
      let (judge, unseen) = collected d.status in
      let streaming = sync_streaming d in
      if eqb_ℤ need (pos 0)
      then quiet
      else if not judge
      then (if unseen then hidden else quiet)
      else if leb_ℤ need (pos (length streaming))
      then quiet
      else flagged (short_finding set names need streaming)

  -- syncShort: `hidden` is (Finding{}, false, true), `quiet` is (Finding{}, false, false).
  unfoldable pub sync_short : ReplDownstreams F → ReplSync → Seen F
  sync_short d s =
      let (judge, unseen) = collected s.status in
      if not judge then (if unseen then hidden else quiet) else elim s.rows [
        | [] ↦ if unseen then hidden else quiet
        | set ∷ rest ↦
            if not (waits_for_standbys set.commit)
            then quiet
            else elim (parse_sync_names (or_empty set.standby_names)) [
              | none ↦ hidden
              | some (need, names) ↦ compare_streaming d set (or_empty set.standby_names) need
            ]
      ]

module _ {F : Type 0} ⦃fl : Floats F⦄ ⦃u : Unicode⦄ where
  -- Repl
  unfoldable pub repl : ReplDownstreams F → ReplSync → InstUpstream F → ReplReplay F → Result F
  repl d s up r =
      let (judge, unseen) = collected r.status in
      judged
        (finding_of (upstream up)
          ++ (if judge then findings_of judge_replay r.rows else [])
          ++ finding_of (sync_short d s))
        (dark (upstream up) || unseen || dark (sync_short d s))
