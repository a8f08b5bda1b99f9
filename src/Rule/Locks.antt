-- ===== src/Rule/Locks.antt =====
-- internal/rule/lock.go
pub mod Laws
use kbdiag.Prelude.{
  ℤ, eqb_ℤ, String, none, some, List, [], ◌∷◌, map, ◌||◌, not, concat, join, show, if◌then◌else◌,
}
use kbdiag.Facts.Base.{Floats, int, str, float, ints, opt_str}
use kbdiag.Facts.Lock.{Lock, LockList, blockers, prepared_blocker, lock_list_id}
use kbdiag.Rule.Base.{
  Level, Finding, Result, Thresholds, Seen, hidden, quiet, flagged, Next, verify, judged, collected,
  findings_of, some_hidden,
}

-- The two lists that the loop over the blockers appends to.
unfoldable pub blocker_name : ℤ → String
blocker_name b = if eqb_ℤ b prepared_blocker then "an uncommitted two-phase transaction" else show b

unfoldable pub blocker_next : ℤ → Next
blocker_next b =
    if eqb_ℤ b prepared_blocker
    then verify "kbdiag txn"
        "the blocker is an uncommitted two-phase transaction: its gid and how long it has been pending"
    else verify (concat ("kbdiag session " ∷ show b ∷ [])) "what the blocking session is doing"

lock_target : {F : Type 0} → Lock F → String
lock_target x = elim x.relation [
  | none ↦ concat (x.locktype ∷ " lock" ∷ [])
  | some r ↦ concat (x.mode ∷ " on " ∷ r ∷ [])
]

blocked_by_text : List String → String
blocked_by_text [] = ""
blocked_by_text (n ∷ ns) = concat (", blocked by " ∷ join ", " (n ∷ ns) ∷ [])

module _ {F : Type 0} ⦃fl : Floats F⦄ where
  -- lockWaiting of a row whose pid and wait_s are set.
  unfoldable pub lock_waiting : Lock F → ℤ → F → Finding F
  unfolding lock_target blocked_by_text
  lock_waiting x pid wait = record {
    id = "lock.waiting";
    level = Level.warn;
    symptom = concat (
        "session "
        ∷ show pid
        ∷ " has waited "
        ∷ fl.fixed0 wait
        ∷ "s for "
        ∷ lock_target x
        ∷ blocked_by_text (map blocker_name (blockers x))
        ∷ []);
    evidence =
        (record {
          probe_id = lock_list_id;
          fields =
              ("waiter_pid", int pid)
              ∷ ("blocker_pids", ints (blockers x))
              ∷ ("relation", opt_str x.relation)
              ∷ ("lock_mode", str x.mode)
              ∷ ("wait_s", float wait)
              ∷ [];
        })
        ∷ [];
    cause = none;
    next = map blocker_next (blockers x);
  }

  -- One round of the loop over the rows.
  unfoldable pub judge_lock : Thresholds F → Lock F → Seen F
  judge_lock th x = elim x.pid [
    | none ↦ quiet
    | some pid ↦ if x.granted then quiet else elim x.wait_s [
      | none ↦ hidden
      | some wait ↦
          if fl.lt wait th.lock_wait_warn_s then quiet else flagged (lock_waiting x pid wait)
    ]
  ]

  -- Locks
  unfoldable pub locks : LockList F → Thresholds F → Result F
  locks l th =
      let (judge, unseen) = collected l.status in
      if not judge
      then judged [] unseen
      else judged (findings_of (judge_lock th) l.rows)
          (unseen || some_hidden (judge_lock th) l.rows)
