-- ===== src/Rule/Seq/Fix.antt =====
-- internal/rule/seq.go: the characters of the SQL that seqFix suggests.
use Prim.Native.String.{◌++◌}
use kbdiag.Rule.Base.{fix}
use kbdiag.Prelude.{
  ltb_ℤ, pos, [], ◌∷◌, String, Bool, true, false, ◌||◌, concat, ◌≡◌, refl, arith, if◌then◌else◌,
}
use kbdiag.Facts.Seq.{Sequence}
use kbdiag.Rule.Names.{
  any_char, replace_char, is_control, is_format, is_hostile, has_control, quote_ident, qualified,
}
use kbdiag.Rule.Names.Chars.{any_char-append, replace_char-keeps}
use kbdiag.Rule.Seq.{seq_fix}

quote_ident-hostile : (s : String) → any_char is_hostile (quote_ident s) ≡ any_char is_hostile s
unfolding quote_ident
quote_ident-hostile s =
    let quote_plain : is_hostile b'"' ≡ false =
      unfold is_hostile in unfold is_control in unfold is_format in refl in
    let doubled = replace_char b'"' "\"\"" s in
    ground (
      arith,
      quote_plain,
      replace_char-keeps is_hostile b'"' "\"\"" s quote_plain (ground (arith, quote_plain)),
      any_char-append is_hostile "\"" (doubled ++ "\""),
      any_char-append is_hostile doubled "\"",
    )

-- The two parts of a qualified name are as plain as the names.
qualified-hostile :
    (schema rel : String)
    → any_char is_hostile (qualified schema rel)
      ≡ (any_char is_hostile schema || any_char is_hostile rel)
unfolding qualified concat
qualified-hostile schema rel =
    let dot_plain : is_hostile b'.' ≡ false =
      unfold is_hostile in unfold is_control in unfold is_format in refl in
    ground (
      arith,
      dot_plain,
      quote_ident-hostile schema,
      quote_ident-hostile rel,
      any_char-append is_hostile (quote_ident schema) ("." ++ (quote_ident rel ++ "")),
      any_char-append is_hostile "." (quote_ident rel ++ ""),
      any_char-append is_hostile (quote_ident rel) "",
    )

texts_plain :
    (any_char is_hostile "ALTER SEQUENCE " ≡ false)
    × (any_char is_hostile " AS bigint" ≡ false)
    × (any_char is_hostile " " ≡ false)
    × (any_char is_hostile "MINVALUE <lower>" ≡ false)
    × (any_char is_hostile "MAXVALUE <higher>" ≡ false)
    × (any_char is_hostile "<sequence>" ≡ false)
texts_plain =
    unfold is_hostile in
    unfold is_control in unfold is_format in (refl, refl, refl, refl, refl, refl)

sql-hostile :
    (name tail : String)
    → any_char is_hostile ("ALTER SEQUENCE " ++ (name ++ (tail ++ ""))) ≡ (
        any_char is_hostile "ALTER SEQUENCE "
        || any_char is_hostile name
        || any_char is_hostile tail)
sql-hostile name tail = ground (
  arith,
  any_char-append is_hostile "ALTER SEQUENCE " (name ++ (tail ++ "")),
  any_char-append is_hostile name (tail ++ ""),
  any_char-append is_hostile tail "",
)

-- The three forms of the SQL.
fix-plain :
    (typed at_bound : Bool) (name clause typed_note bound_note own_note : String)
    → any_char is_hostile name ≡ false
    → any_char is_hostile clause ≡ false
    → has_control
        (if typed
          then fix (concat ("ALTER SEQUENCE " ∷ name ∷ " AS bigint" ∷ [])) typed_note
          else if at_bound
          then fix (concat ("ALTER SEQUENCE " ∷ name ∷ " " ∷ clause ∷ [])) bound_note
          else fix (concat ("ALTER SEQUENCE " ∷ name ∷ " " ∷ clause ∷ [])) own_note).sql
      ≡ false
unfolding has_control concat
fix-plain typed at_bound name clause n1 n2 n3 h k = ground (
  arith,
  h,
  k,
  texts_plain,
  sql-hostile name " AS bigint",
  any_char-append is_hostile "ALTER SEQUENCE " (name ++ (" " ++ (clause ++ ""))),
  any_char-append is_hostile name (" " ++ (clause ++ "")),
  any_char-append is_hostile " " (clause ++ ""),
  any_char-append is_hostile clause "",
)

chosen-plain :
    (hostile : Bool) (name : String)
    → (hostile ≡ false → any_char is_hostile name ≡ false)
    → any_char is_hostile (if hostile then "<sequence>" else name) ≡ false
chosen-plain true name h = texts_plain.5
chosen-plain false name h = h refl

name-plain :
    (s : Sequence)
    → any_char is_hostile (
        if has_control (s.schemaname ++ s.sequencename)
        then "<sequence>"
        else qualified s.schemaname s.sequencename)
      ≡ false
unfolding has_control
name-plain s =
    chosen-plain (any_char is_hostile (s.schemaname ++ s.sequencename))
      (qualified s.schemaname s.sequencename)
      (λ h. ground (
        arith,
        h,
        any_char-append is_hostile s.schemaname s.sequencename,
        qualified-hostile s.schemaname s.sequencename,
      ))

clause-plain :
    (down : Bool)
    → any_char is_hostile (if down then "MINVALUE <lower>" else "MAXVALUE <higher>") ≡ false
clause-plain true = texts_plain.3
clause-plain false = texts_plain.4

-- The SQL that seqFix suggests never has a character that the text report shows escaped, so it
-- can be pasted as shown, whatever the names of the schema and the sequence are.
pub seq_fix-plain : (s : Sequence) → has_control (seq_fix s).sql ≡ false
unfolding seq_fix
seq_fix-plain s =
    fix-plain _ _ _ _ _ _ _ (name-plain s) (clause-plain (ltb_ℤ s.increment_by (pos 0)))
