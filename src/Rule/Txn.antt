-- ===== src/Rule/Txn.antt =====
-- internal/rule/txn.go
pub mod Laws
pub mod Hostile
use kbdiag.Prelude.{
  ℕ, pos, Bool, true, false, String, Option, none, some, List, [], ◌∷◌, ◌||◌, not, concat, show,
  if◌then◌else◌,
}
use kbdiag.Facts.Base.{Status, Floats, int, str, float, opt_str, opt_nat}
use kbdiag.Facts.Session.{Session, SessionActivity, masked, untracked, session_activity_id}
use kbdiag.Facts.Txn.{Prepared, TxnPrepared, txn_prepared_id}
use kbdiag.Rule.Base.{
  Level, Finding, Result, Thresholds, Next, Seen, hidden, quiet, flagged, verify, fix, judged,
  collected, findings_of, some_hidden, merge,
}
use kbdiag.Rule.Names.{replace_char, any_char, is_control}

abbrev pub or_dash : Option String → String
or_dash none = "-"
or_dash (some s) = s

-- The fix of a prepared transaction: its SQL only if the gid can be pasted.
unfoldable pub prepared_fix : {F T : Type 0} → Prepared F T → Next
prepared_fix x =
    if any_char is_control x.gid
    then verify "kbdiag txn --json"
        "the gid has control characters and the text shows it escaped: take the raw gid from the JSON before committing or rolling back"
    else fix (concat ("ROLLBACK PREPARED '" ∷ replace_char b'\'' "''" x.gid ∷ "'" ∷ [])) (
        concat (
          "check with the application whether to commit (COMMIT PREPARED) or roll back; run it connected to database "
          ∷ x.database ∷ ", outside a transaction block" ∷ []))

module _ {F : Type 0} ⦃fl : Floats F⦄ where
  unfoldable pub long_finding : Session F → F → Finding F
  long_finding s age = record {
    id = "txn.long";
    level = Level.warn;
    symptom = concat (
        "session "
        ∷ show s.pid
        ∷ " has had a transaction open for "
        ∷ fl.fixed0 age
        ∷ "s, now "
        ∷ or_dash s.state
        ∷ []);
    evidence =
        (record {
          probe_id = session_activity_id;
          fields =
              ("pid", int s.pid)
              ∷ ("state", opt_str s.state)
              ∷ ("xact_age_s", float age)
              ∷ ("backend_xid", opt_nat s.backend_xid)
              ∷ ("backend_xmin", opt_nat s.backend_xmin)
              ∷ [];
        })
        ∷ [];
    cause = none;
    next =
        verify (concat ("kbdiag session " ∷ show s.pid ∷ []))
          "what it is running, which locks it holds, whether it blocks anyone"
        ∷ [];
  }

  -- One round of longTxn's loop.
  unfoldable pub judge_long : Thresholds F → Session F → Seen F
  judge_long th s = if masked s || untracked s then hidden else elim s.xact_age_s [
    | none ↦ quiet
    | some age ↦ if fl.lt age th.xact_warn_s then quiet else flagged (long_finding s age)
  ]

  -- longTxn
  unfoldable pub long_txn : SessionActivity F → Thresholds F → Result F
  long_txn a th =
      let (judge, unseen) = collected a.status in
      if not judge
      then judged [] unseen
      else judged (findings_of (judge_long th) a.rows)
          (unseen || some_hidden (judge_long th) a.rows)

module _ {F T : Type 0} ⦃fl : Floats F⦄ where
  unfoldable pub prepared_finding : Prepared F T → Finding F
  unfolding prepared_fix
  prepared_finding x = record {
    id = "txn.prepared";
    level = Level.warn;
    symptom = concat (
        "two-phase transaction "
        ∷ x.gid
        ∷ " prepared "
        ∷ fl.fixed0 x.age_s
        ∷ "s ago and not finished, holding back the vacuum horizon"
        ∷ []);
    evidence =
        (record {
          probe_id = txn_prepared_id;
          fields =
              ("gid", str x.gid)
              ∷ ("owner", str x.owner)
              ∷ ("database", str x.database)
              ∷ ("age_s", float x.age_s)
              ∷ ("transaction", int (pos x.transaction))
              ∷ [];
        })
        ∷ [];
    cause = none;
    next = prepared_fix x ∷ [];
  }

  -- One round of prepared's loop.
  unfoldable pub judge_prepared : Thresholds F → Prepared F T → Seen F
  judge_prepared th x =
      if fl.lt x.age_s th.prepared_warn_s then quiet else flagged (prepared_finding x)

  unfoldable pub prepared : TxnPrepared F T → Thresholds F → Result F
  prepared p th =
      let (judge, unseen) = collected p.status in
      if not judge then judged [] unseen else judged (findings_of (judge_prepared th) p.rows) unseen

  -- Txn
  unfoldable pub txn : SessionActivity F → TxnPrepared F T → Thresholds F → Result F
  txn a p th = merge (long_txn a th ∷ prepared p th ∷ [])
