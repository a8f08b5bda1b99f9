-- ===== src/Scenario/Ordered.antt =====
-- internal/scenario/top.go and seq.go: the commands that sort their rows before --limit cuts them.
pub mod Laws
use kbdiag.Prelude.{
  ℤ, pos, ltb_ℤ, eqb_ℤ, Bool, true, false, String, Option, none, some, is_some, List, [], ◌∷◌, ◌&&◌,
  ◌||◌, not, map, ltb, length, concat, str_eq, if◌then◌else◌,
}
use kbdiag.Facts.Base as Facts
use kbdiag.Facts.Base.{Floats, Times, Redaction}
use kbdiag.Facts.Top as FactsTop
use kbdiag.Facts.Top.{Statement, SqlTop, sql_top_id, top_columns}
use kbdiag.Facts.Seq as FactsSeq
use kbdiag.Facts.Seq.{Sequence, SeqList, seq_list_id, seq_columns}
use kbdiag.Rule.Inst.{is_nil}
use kbdiag.Rule.Space.{display}
use kbdiag.Rule.Seq as RuleSeq
use kbdiag.Rule.Seq.{seq_left}
use kbdiag.Report.{Report, new, add_probe, add_redacted}
use kbdiag.Scenario.Sorting.{stable_sort, text_lt}

-- TopOrders, as a function: "" for a key that is not there.
unfoldable pub top_orders : String → String
top_orders by =
    if str_eq by "time"
    then "total execution time"
    else if str_eq by "mean"
    then "mean execution time"
    else if str_eq by "calls"
    then "calls"
    else if str_eq by "io"
    then "blocks read from outside shared buffers"
    else if str_eq by "temp"
    then "temporary blocks written"
    else ""

-- orEmpty
unfoldable pub or_empty : Option String → String
or_empty none = ""
or_empty (some s) = s

-- Both query ids are there and differ.
abbrev pub ids_differ : Option ℤ → Option ℤ → Bool
ids_differ (some a) (some b) = not (eqb_ℤ a b)
ids_differ _ _ = false

abbrev pub ids_less : Option ℤ → Option ℤ → Bool
ids_less (some a) (some b) = ltb_ℤ a b
ids_less _ _ = false

module _ {F : Type 0} ⦃fl : Floats F⦄ where
  -- a != b of two float64
  abbrev pub differs : F → F → Bool
  differs a b = not (fl.le a b && fl.le b a)

  -- key of Top
  unfoldable pub top_key : String → Statement F → F
  top_key by s =
      if str_eq by "mean"
      then s.mean_exec_s
      else if str_eq by "calls"
      then fl.of_int s.calls
      else if str_eq by "io"
      then fl.of_int s.shared_blks_read
      else if str_eq by "temp"
      then fl.of_int s.temp_blks_written
      else s.total_exec_s

  -- The less function of Top.
  unfoldable pub top_less : String → Statement F → Statement F → Bool
  unfolding top_key or_empty text_lt
  top_less by a b =
      if differs (top_key by a) (top_key by b)
      then fl.lt (top_key by b) (top_key by a)
      else if differs a.total_exec_s b.total_exec_s
      then fl.lt b.total_exec_s a.total_exec_s
      else if not (eqb_ℤ a.calls b.calls)
      then ltb_ℤ b.calls a.calls
      else if (is_some a.query_id && not (is_some b.query_id))
          || (not (is_some a.query_id) && is_some b.query_id)
      then is_some a.query_id
      else if ids_differ a.query_id b.query_id
      then ids_less a.query_id b.query_id
      else text_lt (or_empty a.query) (or_empty b.query)

  -- rs of Top, sorted
  unfoldable pub top_rows : String → List (Statement F) → List (Statement F)
  unfolding stable_sort top_less
  top_rows by rs = stable_sort (top_less by) rs

abbrev pub seq_name : Sequence → String
seq_name s = concat (s.schemaname ∷ "." ∷ s.sequencename ∷ [])

module _ (F : Type 0) ⦃fl : Floats F⦄ where
  -- used of Seq: the share, and whether there is one
  unfoldable pub used_share : Sequence → F × Bool
  used_share s = elim (seq_left {F = F} s) [
    | none ↦ (fl.of_int (pos 0), false)
    | some p ↦ (p.1, true)
  ]

  -- The less function of Seq.
  unfoldable pub seq_less : Sequence → Sequence → Bool
  unfolding used_share text_lt
  seq_less x y =
      let (a, a_ok) = used_share x in
      let (b, b_ok) = used_share y in
      if (a_ok && not b_ok) || (not a_ok && b_ok)
      then a_ok
      else if differs a b
      then fl.lt b a
      else text_lt (seq_name x) (seq_name y)

  -- rs of Seq, sorted
  unfoldable pub seq_rows : List Sequence → List Sequence
  unfolding stable_sort seq_less
  seq_rows rs = stable_sort seq_less rs

module _ {F T : Type 0} ⦃fl : Floats F⦄ ⦃tm : Times T⦄ where
  -- Top
  unfoldable pub top : Facts.Context T → SqlTop F → ℤ → String → Report F
  unfolding top_rows
  top c t limit by =
      let s = record t { rows = top_rows by t.rows } in
      add_redacted (FactsTop.redacted s) (
        add_probe sql_top_id s.status s.reason top_columns (map FactsTop.row s.rows) limit
          (new "top" c (display (not (is_nil (FactsTop.redacted s))) (s.status ∷ []))))

  -- Seq
  unfoldable pub seq : Facts.Context T → SeqList → ℤ → Report F
  unfolding seq_rows
  seq c l limit =
      let s = record l { rows = seq_rows F l.rows } in
      add_redacted (FactsSeq.redacted s) (
        add_probe seq_list_id s.status s.reason seq_columns (map FactsSeq.row s.rows) limit
          (new "seq" c (RuleSeq.seq ⦃fl = fl⦄ s c.role)))
