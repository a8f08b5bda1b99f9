-- ===== src/Report/Redacted.antt =====
-- internal/report/redacted.go: the lines on what was redacted, one for each probe and reason.
pub mod Laws
pub mod Lines
use kbdiag.Prelude.{
  ℤ, pos, leb_ℤ, eqb_ℤ, String, Bool, true, false, Option, none, some, List, [], ◌∷◌, ◌++◌, ◌&&◌,
  ◌||◌, not, any, map, concat, join, show, str_eq, if◌then◌else◌,
}
use kbdiag.Facts.Base.{Redaction, reason_insufficient_privilege}
use kbdiag.Facts.Session.{session_activity_id}
use kbdiag.Facts.Lock.{lock_list_id}
use kbdiag.Facts.Wait.{wait_summary_id}
use kbdiag.Facts.Seq.{seq_list_id}
use kbdiag.Rule.Names.{listed}

pub record FieldLabel : Type 0 where
  pub label : String
  pub fields : List String

abbrev labelled : String → List String → FieldLabel
labelled label fields = record { label = label; fields = fields }

-- redactedLabels[probe]
unfoldable pub redacted_labels : String → List FieldLabel
redacted_labels probe =
    if str_eq probe session_activity_id
    then labelled "state" ("state" ∷ [])
      ∷ labelled "backend_type" ("backend_type" ∷ [])
      ∷ labelled "client_addr" ("client_addr" ∷ [])
      ∷ labelled "ages" ("xact_age_s" ∷ "query_age_s" ∷ "state_age_s" ∷ [])
      ∷ labelled "wait" ("wait_event_type" ∷ "wait_event" ∷ [])
      ∷ labelled "query" ("query" ∷ [])
      ∷ []
    else if str_eq probe lock_list_id
    then labelled "wait" ("wait_s" ∷ []) ∷ []
    else if str_eq probe wait_summary_id
    then labelled "wait" ("wait_event_type" ∷ "wait_event" ∷ [])
      ∷ labelled "state" ("state" ∷ [])
      ∷ []
    else []

-- delete(has, f): the set is the list of its members
abbrev pub delete : String → List String → List String
delete f [] = []
delete f (g ∷ gs) = let rest = delete f gs in if str_eq g f then rest else g ∷ rest

abbrev pub delete_all : List String → List String → List String
delete_all [] has = has
delete_all (f ∷ fs) has = delete_all fs (delete f has)

-- The first loop of labels: what it appends, and the set that it leaves.
unfoldable pub table_labels : List FieldLabel → List String → List String × List String
table_labels [] has = ([], has)
table_labels (l ∷ ls) has =
    let (out, left) = table_labels ls (delete_all l.fields has) in
    (if any (λ f. listed f has) l.fields then l.label ∷ out else out, left)

-- The second loop of labels: the fields without a label. Deleting a field that is not there changes
-- nothing.
unfoldable pub own_labels : List String → List String → List String
own_labels [] has = []
own_labels (f ∷ fs) has =
    let rest = own_labels fs (delete f has) in if listed f has then f ∷ rest else rest

-- labels
unfoldable pub labels : String → List String → List String
unfolding redacted_labels table_labels own_labels
labels probe fields =
    let (out, left) = table_labels (redacted_labels probe) fields in out ++ own_labels fields left

-- key and group of writeRedacted
pub record Group : Type 0 where
  pub probe : String
  pub reason : String
  pub rows : ℤ
  pub fields : List String

abbrev pub max_ℤ : ℤ → ℤ → ℤ
max_ℤ a b = if leb_ℤ a b then b else a

abbrev pub is_key : Redaction → Group → Bool
is_key x g = str_eq g.probe x.probe_id && str_eq g.reason x.reason

-- One round of writeRedacted's first loop: a new key goes to the end.
abbrev pub add_entry : List Group → Redaction → List Group
add_entry [] x =
    (record {
      probe = x.probe_id;
      reason = x.reason;
      rows = max_ℤ (pos 0) x.rows_affected;
      fields = x.field ∷ [];
    })
    ∷ []
add_entry (g ∷ gs) x =
    let rest = add_entry gs x in
    if is_key x g
    then (record g { rows = max_ℤ g.rows x.rows_affected; fields = g.fields ++ (x.field ∷ []) })
      ∷ gs
    else g ∷ rest

unfoldable pub groups_from : List Group → List Redaction → List Group
groups_from gs [] = gs
groups_from gs (x ∷ xs) = groups_from (add_entry gs x) xs

-- groups of writeRedacted, in the order of keys
unfoldable pub groups : List Redaction → List Group
unfolding groups_from
groups rs = groups_from [] rs

-- grantHints[probe]
abbrev pub grant_hint : String → String
grant_hint probe =
    if str_eq probe seq_list_id
    then "; grant SELECT on the sequences (sys_monitor does not cover them)"
    else "; grant sys_monitor"

-- plural
unfoldable pub plural : ℤ → String → String → String
plural n one many = concat (show n ∷ " " ∷ (if eqb_ℤ n (pos 1) then one else many) ∷ [])

-- The line of one group.
unfoldable pub group_line : Group → String
unfolding labels plural
group_line g = concat (
    "redacted: "
    ∷ plural g.rows "row" "rows"
    ∷ " of "
    ∷ g.probe
    ∷ " "
    ∷ (if eqb_ℤ g.rows (pos 1) then "hides" else "hide")
    ∷ " "
    ∷ join ", " (labels g.probe g.fields)
    ∷ " ("
    ∷ g.reason
    ∷ (if str_eq g.reason reason_insufficient_privilege then grant_hint g.probe else "")
    ∷ ")"
    ∷ [])

-- writeRedacted
unfoldable pub write_redacted : List Redaction → List String
unfolding groups group_line
write_redacted rs = map group_line (groups rs)
