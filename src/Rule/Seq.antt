-- ===== src/Rule/Seq.antt =====
-- internal/rule/seq.go. big.Int is the integers, with no overflow.
pub mod Nextval
pub mod Laws
pub mod Fix
use kbdiag.Prelude.{
  ℕ, ◌+◌, ◌==◌, ◌-◌, ◌/◌, ◌^◌, ℤ, pos, negsuc, pos_part, neg_part, ◌-ℤ◌, ltb_ℤ, leb_ℤ, eqb_ℤ, Bool,
  true, false, String, Option, none, some, List, [], ◌∷◌, ◌&&◌, ◌||◌, not, concat, show, str_eq,
  if◌then◌else◌,
}
use Prim.Native.String.{◌++◌}
use kbdiag.Facts.Base.{Status, Floats, int, str}
use kbdiag.Facts.Seq as Seq
use kbdiag.Facts.Seq.{Sequence, SeqList, seq_list_id}
use kbdiag.Rule.Base.{
  Level, Finding, Result, Next, Seen, hidden, quiet, flagged, fix, judged, collected, findings_of,
}
use kbdiag.Rule.Inst.{is_nil}
use kbdiag.Rule.Names.{qualified, has_control}

-- room and span of SeqLeft: what is left to the limit, and the whole range from the start.
unfoldable pub room : Sequence → ℤ → ℤ
room s last = if ltb_ℤ (pos 0) s.increment_by then s.max_value -ℤ last else last -ℤ s.min_value

unfoldable pub span : Sequence → ℤ
span s =
    if ltb_ℤ (pos 0) s.increment_by
    then s.max_value -ℤ s.start_value
    else s.start_value -ℤ s.min_value

-- A negative room counts as 0, and Quo by the positive step rounds down.
unfoldable pub values_left : Sequence → ℤ → ℕ
unfolding room
values_left s last = pos_part (room s last) / (pos_part s.increment_by + neg_part s.increment_by)

-- used of SeqLeft
unfoldable pub share_used : {F : Type 0} ⦃fl : Floats F⦄ → Sequence → ℤ → F
unfolding room span
share_used ⦃fl⦄ s last =
    if leb_ℤ (span s) (pos 0)
    then fl.of_int (pos 1)
    else fl.least (fl.of_int (pos 1))
        (fl.most (fl.of_int (pos 0)) (fl.ratio (span s -ℤ pos (pos_part (room s last))) (span s)))

-- SeqLeft; `none` is ok == false.
unfoldable pub seq_left : {F : Type 0} ⦃fl : Floats F⦄ → Sequence → Option (ℕ × F)
seq_left s = elim s.last_value [
  | none ↦ none
  | some last ↦
      if eqb_ℤ s.increment_by (pos 0) then none else some (values_left s last, share_used s last)
]

-- typeBounds
unfoldable pub type_bounds : String → ℤ × ℤ
type_bounds t =
    if str_eq t "smallint"
    then (negsuc (2 ^ 15 - 1), pos (2 ^ 15 - 1))
    else if str_eq t "integer"
    then (negsuc (2 ^ 31 - 1), pos (2 ^ 31 - 1))
    else (negsuc (2 ^ 63 - 1), pos (2 ^ 63 - 1))

-- own of seqFix: the limit in the way is the sequence's, and its type allows more.
unfoldable pub own_limit : Sequence → Bool
unfolding type_bounds
own_limit s =
    let (lo, hi) = type_bounds s.data_type in
    ltb_ℤ (pos 0) s.increment_by && ltb_ℤ s.max_value hi
    || ltb_ℤ s.increment_by (pos 0) && ltb_ℤ lo s.min_value

-- seqFix
unfoldable pub seq_fix : Sequence → Next
unfolding own_limit
seq_fix s =
    let hostile = has_control (s.schemaname ++ s.sequencename) in
    let name = if hostile then "<sequence>" else qualified s.schemaname s.sequencename in
    let note : String =
      if hostile
      then "the name has control characters and is shown escaped: take it from kbdiag seq --json; "
      else "" in
    let down = ltb_ℤ s.increment_by (pos 0) in
    let clause : String = if down then "MINVALUE <lower>" else "MAXVALUE <higher>" in
    let what : String = if down then "its MINVALUE" else "its MAXVALUE" in
    if not (own_limit s) && not (str_eq s.data_type "bigint")
    then fix (concat ("ALTER SEQUENCE " ∷ name ∷ " AS bigint" ∷ [])) (
        concat (
          note
          ∷ "the column it feeds must become bigint first (ALTER TABLE ... ALTER COLUMN ... TYPE bigint rewrites the table)"
          ∷ []))
    else if not (own_limit s)
    then fix (concat ("ALTER SEQUENCE " ∷ name ∷ " " ∷ clause ∷ []))
        (concat (note ∷ "a bigint sequence at the type's bound: plan a new key" ∷ []))
    else fix (concat ("ALTER SEQUENCE " ∷ name ∷ " " ∷ clause ∷ []))
        (concat (note ∷ "it stops at " ∷ what ∷ ", short of what its type allows" ∷ []))

module _ {F : Type 0} ⦃fl : Floats F⦄ where
  unfoldable pub seq_finding : Sequence → ℤ → Finding F
  unfolding seq_fix
  seq_finding s last =
      let limit = if ltb_ℤ s.increment_by (pos 0) then s.min_value else s.max_value in
      record {
        id = "seq.exhausted";
        level = Level.fail;
        symptom = concat (
            "sequence "
            ∷ s.schemaname
            ∷ "."
            ∷ s.sequencename
            ∷ " ("
            ∷ s.data_type
            ∷ ") is at "
            ∷ show last
            ∷ ", its limit is "
            ∷ show limit
            ∷ ": nextval fails, so inserts that use it fail"
            ∷ []);
        evidence =
            (record {
              probe_id = seq_list_id;
              fields =
                  ("schemaname", str s.schemaname)
                  ∷ ("sequencename", str s.sequencename)
                  ∷ ("data_type", str s.data_type)
                  ∷ ("last_value", int last)
                  ∷ ("min_value", int s.min_value)
                  ∷ ("max_value", int s.max_value)
                  ∷ ("increment_by", int s.increment_by)
                  ∷ [];
            })
            ∷ [];
        cause = none;
        next = seq_fix s ∷ [];
      }

  -- One round of Seq's loop: `ok` of SeqLeft, Cycle, and left.Sign() > 0.
  unfoldable pub judge_seq : Sequence → Seen F
  judge_seq s = elim s.last_value [
    | none ↦ quiet
    | some last ↦ elim (seq_left ⦃fl = fl⦄ s) [
      | none ↦ quiet
      | some (left, used) ↦
          if s.cycle || not (left == 0) then quiet else flagged (seq_finding s last)
    ]
  ]

  -- Seq
  unfoldable pub seq : SeqList → String → Result F
  seq l role =
      let (judge, unseen) = collected l.status in
      let unread = not (is_nil (Seq.redacted l)) in
      if not judge
      then judged [] unseen
      else if str_eq role "standby"
      then judged [] unread
      else judged (findings_of judge_seq l.rows) unread
