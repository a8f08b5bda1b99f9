-- ===== src/Probe/RepmgrConf.antt =====
-- internal/probe/cluster.go: parseRepmgrConf.
use Prim.Native.Char.{code}
use kbdiag.Prelude.{
  ℕ, ◌==◌, ltb, String, Bool, Option, none, some, List, [], ◌∷◌, ◌&&◌, ◌||◌, not, is_some, str_eq,
  if◌then◌else◌,
}
use kbdiag.Unicode.{Unicode}
use kbdiag.Rule.Names.{is_empty}
use kbdiag.Rule.Names.Booleans.{is_prefix_of, text_length}
use kbdiag.Rule.Vacuum.{cut_equals}

-- A text up to the first character that passes, and from there on; `none` where none passes.
unfoldable pub split_at : (ℕ → Bool) → String → Option (String × String)
split_at p String.[] = none
split_at p (String.◌∷◌ c s) =
    let rest = split_at p s in
    if p (code c)
    then some ("", String.◌∷◌ c s)
    else elim rest [ none ↦ none | some q ↦ some (String.◌∷◌ c q.0, q.1) ]

-- A first line and the rest of the text.
abbrev pub prepend : String → List String → List String
prepend s [] = s ∷ []
prepend s (l ∷ ls) = s ∷ l ∷ ls

-- strings.Split(s, "\n")
unfoldable pub lines : String → List String
lines String.[] = "" ∷ []
lines (String.◌∷◌ c s) =
    let rest = lines s in
    if code c == b'\n'
    then "" ∷ rest
    else elim rest [ [] ↦ String.◌∷◌ c "" ∷ [] | l ∷ ls ↦ String.◌∷◌ c l ∷ ls ]

abbrev pub is_blank : ℕ → Bool
is_blank r = r == b' ' || r == b'\t'

-- k, v, ok := strings.Cut(line, "=")
abbrev pub cut_or_all : String → Option (String × String) → String × String
cut_or_all line none = (line, "")
cut_or_all line (some p) = p

module _ ⦃u : Unicode⦄ where
  -- k, v and ok of a line: cut at the equals sign, or at a blank before it that no equals sign
  -- follows.
  unfoldable pub key_value : String → Option (String × String)
  unfolding cut_equals split_at is_prefix_of text_length
  key_value line =
      let cut = cut_equals line in
      let k = (cut_or_all line cut).0 in
      elim (split_at is_blank line) [
        | none ↦ cut
        | some p ↦
            let pre = u.trim_space p.1 in
            if (not (is_some cut) || ltb (text_length p.0) (text_length k))
              && not (is_prefix_of "=" pre)
            then some (p.0, pre)
            else cut
      ]

  -- A value that starts with the quote `q`, after it: up to the closing one, or whole with its quote.
  abbrev pub unquoted : String → Option (String × String) → String
  unquoted v none = v
  unquoted v (some p) = p.0

  abbrev pub uncommented : String → Option (String × String) → String
  uncommented v none = v
  uncommented v (some p) = u.trim_space p.0

  -- The value of a line: in quotes, or up to a comment.
  unfoldable pub conf_value : String → String
  unfolding split_at
  conf_value String.[] = ""
  conf_value (String.◌∷◌ c s) =
      if code c == b'\'' || code c == b'"'
      then unquoted (String.◌∷◌ c s) (split_at (λ r. r == code c) s)
      else uncommented (String.◌∷◌ c s) (split_at (λ r. r == b'#') (String.◌∷◌ c s))

  -- One round of the loop: the entries, the newest first.
  unfoldable pub read_line : List (String × String) → String → List (String × String)
  unfolding key_value conf_value
  read_line out raw =
      let line = u.trim_space raw in
      if is_empty line || is_prefix_of "#" line then out else elim (key_value line) [
        | none ↦ out
        | some p ↦
            let k = u.trim_space p.0 in
            if is_empty k then out else (k, conf_value (u.trim_space p.1)) ∷ out
      ]

  unfoldable pub read_lines : List (String × String) → List String → List (String × String)
  unfolding read_line
  read_lines out [] = out
  read_lines out (l ∷ ls) = read_lines (read_line out l) ls

  -- parseRepmgrConf
  unfoldable pub parse_repmgr_conf : String → List (String × String)
  unfolding read_lines lines
  parse_repmgr_conf s = read_lines [] (lines s)

-- conf[key]: a later line overrides an earlier one.
unfoldable pub lookup : String → List (String × String) → Option String
lookup key [] = none
lookup key ((k, v) ∷ rest) = let found = lookup key rest in if str_eq k key then some v else found
