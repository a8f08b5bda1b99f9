-- ===== src/Facts/Lock.antt =====
-- internal/facts/lock.go
pub mod Blockers
use kbdiag.Prelude.{
  ℤ, pos, String, Bool, false, Option, List, [], ◌∷◌, ◌++◌, ◌&&◌, ◌||◌, not, count, eqb_ℤ,
  if◌then◌else◌,
}
use kbdiag.Facts.Base.{
  Status, Redaction, Value, str, bool, ints, opt_int, opt_str, opt_float, redactions,
  reason_insufficient_privilege,
}

abbrev pub lock_list_id : String
lock_list_id = "lock.list"

abbrev pub lock_columns : List String
lock_columns = "pid" ∷ "locktype" ∷ "relation" ∷ "mode" ∷ "granted" ∷ "wait_s" ∷ "blocked_by" ∷ []

pub record Lock (F : Type 0) : Type 0 where
  pub pid : Option ℤ
  pub locktype : String
  pub relation : Option String
  pub mode : String
  pub granted : Bool
  pub wait_s : Option F
  pub blocked_by : List ℤ
  pub masked : Bool

pub record LockList (F : Type 0) : Type 0 where
  pub status : Status
  pub reason : String
  pub rows : List (Lock F)

abbrev pub prepared_blocker : ℤ
prepared_blocker = pos 0

-- slices.Contains
abbrev pub contains : List ℤ → ℤ → Bool
contains [] b = false
contains (x ∷ xs) b = eqb_ℤ x b || contains xs b

-- The loop of Blockers over what is left, `out` being what is kept so far.
unfoldable pub keep_new : List ℤ → List ℤ → List ℤ
keep_new [] out = out
keep_new (b ∷ bs) out = keep_new bs (if contains out b then out else out ++ b ∷ [])

module _ {F : Type 0} where
  unfoldable pub row : Lock F → List (Value F)
  row l =
      opt_int l.pid
      ∷ str l.locktype
      ∷ opt_str l.relation
      ∷ str l.mode
      ∷ bool l.granted
      ∷ opt_float l.wait_s
      ∷ ints l.blocked_by
      ∷ []

  -- Blockers
  unfoldable pub blockers : Lock F → List ℤ
  blockers l = keep_new l.blocked_by []

  unfoldable pub redacted : LockList F → List Redaction
  redacted l =
      redactions lock_list_id ("wait_s" ∷ []) reason_insufficient_privilege
        (pos (count (λ x. not x.granted && x.masked) l.rows))
