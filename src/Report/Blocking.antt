-- ===== src/Report/Blocking.antt =====
-- internal/report/locks.go: who blocks the most, and every waiting session. The maps of
-- writeBlockers, keyed by pid, are one list in order of insertion: the code sorts the keys by the count and
-- the pid, so the order of a map does not matter.
pub mod Counts
use kbdiag.Prelude.{
  ℕ, suc, ◌-◌, ◌==◌, ltb, ltb_ℤ, ℤ, pos, pos_part, eqb_ℤ, String, Bool, true, false, Option, none,
  some, List, [], ◌∷◌, ◌++◌, ◌&&◌, ◌||◌, not, any, select, map, length, take, is_some, str_eq,
  concat, join, show, show_ℕ, if◌then◌else◌,
}
use kbdiag.Facts.Base.{Floats}
use kbdiag.Facts.Lock.{Lock, blockers, prepared_blocker}
use kbdiag.Rule.Names.{is_empty, listed}
use kbdiag.Report.Render.{escape_control}
use kbdiag.Report.Layout.{Terminal, fit_width, max_name, write_table}
use kbdiag.Scenario.Sorting.{stable_sort}
use kbdiag.Units as Units

pub record LockObject : Type 0 where
  pub locktype : String
  pub relation : String

-- deref
abbrev pub deref : Option String → String
deref none = ""
deref (some s) = s

abbrev pub object_of : {F : Type 0} → Lock F → LockObject
object_of l = record { locktype = l.locktype; relation = deref l.relation }

unfoldable pub label : LockObject → String
label o =
    if is_empty o.relation
    then o.locktype
    else if not (str_eq o.locktype "relation")
    then concat (o.relation ∷ " (" ∷ o.locktype ∷ ")" ∷ [])
    else o.relation

abbrev pub same_object : LockObject → LockObject → Bool
same_object a b = str_eq a.locktype b.locktype && str_eq a.relation b.relation

abbrev pub blocker_name : ℤ → String
blocker_name pid = if eqb_ℤ pid prepared_blocker then "2PC" else show pid

-- *l.PID, of a row that has one
abbrev pub pid_of : Option ℤ → ℤ
pid_of none = pos 0
pid_of (some p) = p

-- blocks[pid] and the keys of wanted[pid]
pub record Blocker : Type 0 where
  pub pid : ℤ
  pub blocks : ℕ
  pub wanted : List LockObject

unfoldable pub add_blocker : LockObject → ℤ → List Blocker → List Blocker
add_blocker o b [] = record { pid = b; blocks = 1; wanted = o ∷ [] } ∷ []
add_blocker o b (x ∷ xs) =
    let rest = add_blocker o b xs in
    if eqb_ℤ x.pid b
    then record x { blocks = suc x.blocks; wanted = o ∷ x.wanted } ∷ xs
    else x ∷ rest

unfoldable pub add_blockers : LockObject → List ℤ → List Blocker → List Blocker
unfolding add_blocker
add_blockers o [] xs = xs
add_blockers o (b ∷ bs) xs = add_blockers o bs (add_blocker o b xs)

abbrev pub most_first : Blocker → Blocker → Bool
most_first a b = if a.blocks == b.blocks then ltb_ℤ a.pid b.pid else ltb b.blocks a.blocks

-- The row is the blocker's own.
abbrev pub is_of : ℤ → Option ℤ → Bool
is_of b none = eqb_ℤ b prepared_blocker
is_of b (some p) = eqb_ℤ p b

abbrev pub holds_text : List String × List String → String
holds_text (s ∷ held, queued) = join ", " (s ∷ held)
holds_text ([], s ∷ queued) = concat ("(queued ahead for " ∷ join ", " (s ∷ queued) ∷ ")" ∷ [])
holds_text ([], []) = "-"

-- blockedBy
abbrev pub blocked_by_text : List ℤ → String
blocked_by_text [] = "-"
blocked_by_text (b ∷ bs) = join ", " (map blocker_name (b ∷ bs))

-- How many rows the limit leaves out.
unfoldable pub left_out : ℤ → ℕ → ℕ
left_out limit n = if ltb_ℤ (pos 0) limit && ltb (pos_part limit) n then n - pos_part limit else 0

module _ {F : Type 0} where
  abbrev pub is_waiting : Lock F → Bool
  is_waiting l = not l.granted && is_some l.pid

  -- The first loop of writeBlockers.
  unfoldable pub blockers_from : List Blocker → List (Lock F) → List Blocker
  unfolding add_blockers blockers
  blockers_from xs [] = xs
  blockers_from xs (l ∷ ls) = blockers_from (add_blockers (object_of l) (blockers l) xs) ls

  -- On an object that is wanted from the blocker.
  abbrev pub is_wanted : Blocker → Lock F → Bool
  is_wanted b l = is_of b.pid l.pid && any (same_object (object_of l)) b.wanted

module _ ⦃t : Terminal⦄ {F : Type 0} where
  unfoldable pub object_name : Lock F → String
  unfolding label
  object_name l = fit_width (escape_control (label (object_of l))) max_name

  -- held and queued of holds, each text once; `seen` has those of both
  unfoldable pub holdings : List String → List (Lock F) → List String × List String
  unfolding object_name
  holdings seen [] = ([], [])
  holdings seen (l ∷ ls) =
      let s = concat (object_name l ∷ " " ∷ l.mode ∷ []) in
      let known = holdings seen ls in
      let (held, queued) = holdings (s ∷ seen) ls in
      if listed s seen then known else if l.granted then (s ∷ held, queued) else (held, s ∷ queued)

  unfoldable pub holds : List (Lock F) → Blocker → String
  unfolding holdings
  holds rows b = holds_text (holdings [] (select (is_wanted b) rows))

  unfoldable pub write_blockers : List (Lock F) → List (Lock F) → List String
  unfolding holds blockers_from stable_sort write_table
  write_blockers rows waiting =
      let bs = stable_sort most_first (blockers_from [] waiting) in
      ""
      ∷ concat ("blockers: " ∷ show_ℕ (length bs) ∷ [])
      ∷ write_table "  " (some ("pid" ∷ "blocks" ∷ "holds" ∷ []))
          (map (λ b. blocker_name b.pid ∷ show_ℕ b.blocks ∷ holds rows b ∷ []) bs)

module _ ⦃t : Terminal⦄ {F : Type 0} ⦃fl : Floats F⦄ where
  abbrev pub waited : Option F → String
  waited none = "?"
  waited (some s) = Units.duration s

  abbrev pub waited_longer : Option F → Option F → Bool → Bool
  waited_longer (some x) (some y) by_pid = if fl.le x y && fl.le y x then by_pid else fl.lt y x
  waited_longer (some x) none by_pid = true
  waited_longer none (some y) by_pid = false
  waited_longer none none by_pid = by_pid

  -- The order of the waiting rows, which have a pid.
  abbrev pub waits_longer : Lock F → Lock F → Bool
  waits_longer a b = waited_longer a.wait_s b.wait_s (ltb_ℤ (pid_of a.pid) (pid_of b.pid))

  abbrev pub waiting_cells : Lock F → List String
  waiting_cells l =
      show (pid_of l.pid)
      ∷ object_name l
      ∷ l.mode
      ∷ waited l.wait_s
      ∷ blocked_by_text (blockers l)
      ∷ []

  unfoldable pub write_waiting : ℤ → List (Lock F) → List String
  unfolding left_out stable_sort write_table blockers object_name Units.duration
  write_waiting limit [] = "" ∷ "waiting: 0" ∷ []
  write_waiting limit (l ∷ ls) =
      let n = length (l ∷ ls) in
      let more = left_out limit n in
      (""
        ∷ concat ("waiting: " ∷ show_ℕ n ∷ [])
        ∷ write_table "  " (some ("pid" ∷ "object" ∷ "wants" ∷ "waited" ∷ "blocked by" ∷ []))
            (map waiting_cells (take (n - more) (stable_sort waits_longer (l ∷ ls)))))
      ++ (if more == 0
          then []
          else concat
              ("... " ∷ show_ℕ more ∷ " more rows not shown (use --limit 0 to show all)" ∷ [])
            ∷ [])

  -- write, of a probe that was collected
  unfoldable pub write_locks : List (Lock F) → ℤ → List String
  unfolding write_blockers write_waiting
  write_locks rows limit =
      let waiting = select is_waiting rows in
      (if length waiting == 0 then [] else write_blockers rows waiting)
      ++ write_waiting limit waiting
