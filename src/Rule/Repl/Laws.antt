-- ===== src/Rule/Repl/Laws.antt =====
-- internal/rule/repl.go: when the synchronous copy is called short, and the verdict of Repl.
use kbdiag.Prelude.{
  ℤ, pos, eqb_ℤ, ltb_ℤ, length, count, Bool, true, false, String, Option, none, some, Option-cases,
  inl, inr, List, [], ◌∷◌, ◌++◌, ◌&&◌, ◌||◌, not, any, any-append, str_eq, ◌≡◌, refl, arith,
  if◌then◌else◌,
}
use kbdiag.Unicode.{Unicode}
use kbdiag.Facts.Base.{Status, Floats}
use kbdiag.Facts.Inst.{InstUpstream}
use kbdiag.Facts.Repl.{Replica, ReplDownstreams, SyncSetting, ReplSync, Replay, ReplReplay}
use kbdiag.Rule.Base.{collected, findings_of}
use kbdiag.Rule.Verdicts.{level_verdict, verdict_of_levels, is_fail, is_warn}
use kbdiag.Rule.Loops.{
  warns, fails, any-fail-findings_of, any-warn-findings_of, any-cong, any-false,
}
use kbdiag.Rule.SyncNames.{parse_sync_names}
use kbdiag.Rule.Inst.{upstream, finding_of, dark}
use kbdiag.Rule.Inst.Laws.{
  is_collected, is_unread, upstream_warns, receiver_hidden, upstream-cases, any-fail-finding_of,
  any-warn-finding_of,
}
use kbdiag.Rule.Repl.{
  repl, sync_short, compare_streaming, sync_streaming, streaming_names, is_candidate, short_finding,
  judge_replay, paused_finding, or_empty,
}

length-sync_streaming :
    {F : Type 0} (d : ReplDownstreams F) → length (sync_streaming d) ≡ count is_candidate d.rows
unfolding sync_streaming
length-sync_streaming {F} d = go d.rows
  where
    go : (rs : List (Replica F)) → length (streaming_names rs) ≡ count is_candidate rs
    go [] = refl
    go (r ∷ rs) = ground (arith, go rs)

module _ ⦃u : Unicode⦄ where
  -- How many standbys the setting of the first row asks for, where commits wait for them at all;
  -- `none` where it cannot be read.
  abbrev pub needed : List SyncSetting → Option ℤ
  needed [] = some (pos 0)
  needed (set ∷ rest) =
      if str_eq set.commit "on"
        || str_eq set.commit "remote_write"
        || str_eq set.commit "remote_apply"
      then elim (parse_sync_names (or_empty set.standby_names)) [
        | none ↦ none
        | some (need, names) ↦ some need
      ]
      else some (pos 0)

module _ {F : Type 0} ⦃u : Unicode⦄ where
  abbrev pub is_short : ReplDownstreams F → Option ℤ → Bool
  is_short d none = false
  is_short d (some need) =
      not (eqb_ℤ need (pos 0))
      && is_collected d.status
      && ltb_ℤ (pos (count is_candidate d.rows)) need

  abbrev pub is_unsure : ReplDownstreams F → Option ℤ → Bool
  is_unsure d none = true
  is_unsure d (some need) = not (eqb_ℤ need (pos 0)) && is_unread d.status

  -- When the settings were collected and commits wait for standbys, the synchronous copy is
  -- called short exactly when the walsenders were collected too and fewer of them are synchronous
  -- candidates than the setting asks for; it is left open when the setting cannot be read, when
  -- standbys are asked for and the walsenders were skipped or failed, or when the settings were.
  pub sync_short-cases :
      (d : ReplDownstreams F) (s : ReplSync)
      → (warns (sync_short d s) ≡ (is_collected s.status && is_short d (needed s.rows)))
        × (dark (sync_short d s)
            ≡ (is_unread s.status || is_collected s.status && is_unsure d (needed s.rows)))
        × (fails (sync_short d s) ≡ false)
  unfolding sync_short compare_streaming short_finding collected
  sync_short-cases d s = go s.status s.reason s.rows
    where
      go :
          (st : Status) (why : String) (rows : List SyncSetting)
          → let t : ReplSync = record { status = st; reason = why; rows = rows } in
            (warns (sync_short d t) ≡ (is_collected st && is_short d (needed rows)))
            × (dark (sync_short d t)
                ≡ (is_unread st || is_collected st && is_unsure d (needed rows)))
            × (fails (sync_short d t) ≡ false)
      go st why [] = ground arith
      go st why (set ∷ rest) = elim (Option-cases (parse_sync_names (or_empty set.standby_names))) [
        | inl unread ↦ ground (arith, unread)
        | inr (need, read) ↦ ground (arith, read, length-sync_streaming d)
      ]

module _ {F : Type 0} ⦃fl : Floats F⦄ ⦃u : Unicode⦄ where
  judge_replay-levels :
      (r : Replay F) → (warns (judge_replay r) ≡ r.replay_paused) × (fails (judge_replay r) ≡ false)
  unfolding judge_replay paused_finding
  judge_replay-levels r = ground arith

  -- The repl rule says WARN exactly when a standby's receiver was read and there is none or one is
  -- not healthy before any concealed one, when replay is paused, or when the synchronous copy is
  -- short; else UNKNOWN when one of its three judgements lacks its input, and else OK. It never
  -- says FAIL.
  pub repl-verdict :
      (d : ReplDownstreams F) (s : ReplSync) (up : InstUpstream F) (r : ReplReplay F)
      → (repl d s up r).verdict
        ≡ level_verdict false
            (is_collected up.status && upstream_warns up
              || is_collected r.status && any (λ x. x.replay_paused) r.rows
              || is_collected s.status && is_short d (needed s.rows))
            (is_unread up.status
              || is_collected up.status && receiver_hidden up.rows
              || is_unread r.status
              || is_unread s.status
              || is_collected s.status && is_unsure d (needed s.rows))
  unfolding repl collected
  repl-verdict d s up r =
      let paused = if is_collected r.status then findings_of judge_replay r.rows else [] in
      let tail = paused ++ finding_of (sync_short d s) in
      ground (
        arith,
        verdict_of_levels (finding_of (upstream up) ++ tail)
            (dark (upstream up) || is_unread r.status || dark (sync_short d s)),
        any-append is_fail (finding_of (upstream up)) tail,
        any-append is_warn (finding_of (upstream up)) tail,
        any-append is_fail paused (finding_of (sync_short d s)),
        any-append is_warn paused (finding_of (sync_short d s)),
        any-fail-finding_of (upstream up),
        any-warn-finding_of (upstream up),
        any-fail-finding_of (sync_short d s),
        any-warn-finding_of (sync_short d s),
        any-fail-findings_of judge_replay r.rows,
        any-warn-findings_of judge_replay r.rows,
        any-false judge_replay (λ x. fails (judge_replay x)) r.rows
            (λ x. (judge_replay-levels x).1),
        any-cong (λ x. warns (judge_replay x)) (λ x. x.replay_paused) r.rows
            (λ x. (judge_replay-levels x).0),
        upstream-cases up,
        sync_short-cases d s,
      )
