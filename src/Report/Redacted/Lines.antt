-- ===== src/Report/Redacted/Lines.antt =====
-- internal/report/redacted.go: the lines of writeRedacted.
use kbdiag.Prelude.{
  ℤ, pos, leb_ℤ, eqb_ℤ, String, Bool, true, List, [], ◌∷◌, ◌++◌, any, all, map, concat, join,
  str_eq, eq_iff, ◌≡◌, sym, ap, ◌∙◌, inl, inr, Bool-cases, arith, if◌then◌else◌,
}
use kbdiag.Facts.Base.{Redaction, reason_insufficient_privilege}
use kbdiag.Rule.Names.{listed}
use kbdiag.Report.Redacted.{
  Group, plural, labels, redacted_labels, grant_hint, groups, group_line, write_redacted,
}
use kbdiag.Report.Redacted.Laws.{covers, groups-cover, label_of, labels-cover}

-- One line for this probe and reason: how many rows hide which words, and the grant that would help.
abbrev pub line_of : String → String → ℤ → List String → String
line_of probe reason rows words = concat (
    "redacted: "
    ∷ plural rows "row" "rows"
    ∷ " of "
    ∷ probe
    ∷ " "
    ∷ (if eqb_ℤ rows (pos 1) then "hides" else "hide")
    ∷ " "
    ∷ join ", " words
    ∷ " ("
    ∷ reason
    ∷ (if str_eq reason reason_insufficient_privilege then grant_hint probe else "")
    ∷ ")"
    ∷ [])

-- One of the lines is of the entry's probe and reason, has at least its rows, and names its field.
pub record IsReported (x : Redaction) (lines : List String) : Type 0 where
  pub above : List String
  pub below : List String
  pub rows : ℤ
  pub words : List String
  pub printed : lines ≡ above ++ (line_of x.probe_id x.reason rows words ∷ below)
  pub enough : leb_ℤ x.rows_affected rows ≡ true
  pub named : listed (label_of (redacted_labels x.probe_id) x.field) words ≡ true

covered-IsReported :
    (x : Redaction) (gs : List Group) → any (covers x) gs ≡ true → IsReported x (map group_line gs)
unfolding group_line
covered-IsReported x [] h = absurd (ground (arith, h))
covered-IsReported x (g ∷ gs) h = elim (Bool-cases (covers x g)) [
  | inl e ↦
      let same : g.probe ≡ x.probe_id = (eq_iff g.probe x.probe_id).0 (ground (arith, e)) in
      let why : g.reason ≡ x.reason = (eq_iff g.reason x.reason).0 (ground (arith, e)) in
      record {
        above = [];
        below = map group_line gs;
        rows = g.rows;
        words = labels g.probe g.fields;
        printed =
            ap (λ p. line_of p g.reason g.rows (labels g.probe g.fields) ∷ map group_line gs) same
            ∙ ap (λ w. line_of x.probe_id w g.rows (labels g.probe g.fields) ∷ map group_line gs)
                why;
        enough = ground (arith, e);
        named =
            ap (λ p. listed (label_of (redacted_labels p) x.field) (labels g.probe g.fields))
              (sym same)
            ∙ labels-cover g.probe x.field g.fields (ground (arith, e));
      }
  | inr e ↦
      let rest = covered-IsReported x gs (ground (arith, h, e)) in
      record {
        above = group_line g ∷ rest.above;
        below = rest.below;
        rows = rest.rows;
        words = rest.words;
        printed = ap (◌∷◌ (group_line g)) rest.printed;
        enough = rest.enough;
        named = rest.named;
      }
]

all-at :
    {A : Type 0} (p : A → Bool) (before after : List A) (x : A)
    → all p (before ++ (x ∷ after)) ≡ true
    → p x ≡ true
all-at p [] after x h = ground (arith, h)
all-at p (y ∷ before) after x h = all-at p before after x (ground (arith, h))

-- Every redaction entry is in one of the lines that writeRedacted prints: a line of its probe and
-- its reason, with at least its number of rows, and with its field, or the word that stands for
-- it, among the words.
pub write_redacted-IsReported :
    (before after : List Redaction) (x : Redaction)
    → IsReported x (write_redacted (before ++ (x ∷ after)))
unfolding write_redacted
write_redacted-IsReported before after x =
    let rs = before ++ (x ∷ after) in
    covered-IsReported x (groups rs)
      (all-at (λ y. any (covers y) (groups rs)) before after x (groups-cover rs))
