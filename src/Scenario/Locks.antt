-- ===== src/Scenario/Locks.antt =====
-- internal/scenario/lock.go: Locks. The text layout (SetLocks) is not modelled.
pub mod Laws
use kbdiag.Prelude.{
  ℤ, pos, eqb_ℤ, String, Bool, true, false, Option, none, some, List, [], ◌∷◌, ◌++◌, ◌&&◌, ◌||◌,
  not, map, select, any, str_eq, if◌then◌else◌,
}
use kbdiag.Facts.Base as Facts
use kbdiag.Facts.Base.{Floats, Times}
use kbdiag.Facts.Lock as FactsLock
use kbdiag.Facts.Lock.{Lock, LockList, lock_list_id, lock_columns, prepared_blocker}
use kbdiag.Rule.Base.{Thresholds}
use kbdiag.Rule.Locks as RuleLocks
use kbdiag.Report.{Report, new, add_probe, add_redacted}

-- object of Locks: who holds what.
pub record LockedObject : Type 0 where
  pub pid : ℤ
  pub locktype : String
  pub relation : String

-- deref
abbrev pub deref : Option String → String
deref none = ""
deref (some s) = s

-- == on two objects
abbrev pub same_object : LockedObject → LockedObject → Bool
same_object a b = eqb_ℤ a.pid b.pid && str_eq a.locktype b.locktype && str_eq a.relation b.relation

module _ {F : Type 0} where
  abbrev pub objects_of : Lock F → List ℤ → List LockedObject
  objects_of x [] = []
  objects_of x (b ∷ bs) =
      (record { pid = b; locktype = x.locktype; relation = deref x.relation }) ∷ objects_of x bs

  -- The keys of `contested`: what the blockers of the waiting rows are asked for.
  unfoldable pub contested : List (Lock F) → List LockedObject
  contested [] = []
  contested (x ∷ xs) =
      let rest = contested xs in if x.granted then rest else objects_of x x.blocked_by ++ rest

  -- A prepared transaction's lock has no pid.
  abbrev pub holder : Lock F → LockedObject
  holder x = record {
    pid = elim x.pid [ none ↦ prepared_blocker | some p ↦ p ];
    locktype = x.locktype;
    relation = deref x.relation;
  }

  -- shown of Locks.
  unfoldable pub shown_locks : List (Lock F) → List (Lock F)
  unfolding contested
  shown_locks rows =
      select (λ x. not x.granted || any (λ o. same_object o (holder x)) (contested rows)) rows

module _ {F T : Type 0} ⦃fl : Floats F⦄ ⦃tm : Times T⦄ where
  -- Locks
  unfoldable pub locks : Facts.Context T → LockList F → ℤ → Thresholds F → Report F
  unfolding shown_locks
  locks c l limit th = add_redacted (FactsLock.redacted l) (
      add_probe lock_list_id l.status l.reason lock_columns (map FactsLock.row (shown_locks l.rows))
        limit (new "locks" c (RuleLocks.locks l th)))
