-- ===== src/Rule/SyncNames.antt =====
-- internal/rule/repl.go: the parser of synchronous_standby_names.
mod Written
pub mod Words
pub mod Roundtrip
use Prim.Native.Char.{Char, code}
use Prim.Native.String.{◌++◌}
use kbdiag.Prelude.{
  ℕ, zero, suc, ◌+◌, ◌*◌, ◌-◌, ◌<◌, ◌==◌, leb, ltb, ℤ, pos, negsuc, sub_ℕ, ltb_ℤ, eqb_ℤ, String,
  Bool, true, false, Option, none, some, List, [], ◌∷◌, ◌&&◌, ◌||◌, not, concat, join, show, str_eq,
  if◌then◌else◌, length,
}
use kbdiag.Prelude.Decimal.{read_digits}
use kbdiag.Unicode.{Unicode}

pub record SyncToken : Type 0 where
  pub s : String
  pub quoted : Bool

abbrev pub bare : String → SyncToken
bare s = record { s = s; quoted = false }

abbrev pub in_quotes : String → SyncToken
in_quotes s = record { s = s; quoted = true }

-- What syncTokens' switch tells apart.
pub data Class : Type 0 where
  space punct quote other : Class

unfoldable pub class_of : Char → Class
class_of c =
    let r = code c in
    if r == b' ' || r == 9 || r == 10
    then space
    else if r == b',' || r == b'(' || r == b')'
    then punct
    else if r == b'"'
    then quote
    else other

-- Where syncTokens stands: at the top of its loop, in a word, in a quoted name, or behind a
-- double quote of one, which the next character may double.
pub data Mode : Type 0 where
  between : Mode
  in_word in_name behind_quote : String → Mode

-- string(r)
abbrev pub of_char : Char → String
of_char c = String.◌∷◌ c ""

abbrev pub push : SyncToken → Option (List SyncToken) → Option (List SyncToken)
push t none = none
push t (some ts) = some (t ∷ ts)

-- The token that a mode ends with when the text goes on with something else.
abbrev pub flush : Mode → Option (List SyncToken) → Option (List SyncToken)
flush between ts = ts
flush (in_word w) ts = push (bare w) ts
flush (in_name w) ts = none
flush (behind_quote w) ts = push (in_quotes w) ts

-- The loops of syncTokens over the runes; `none` is ok == false.
unfoldable pub tokens_from : Mode → String → Option (List SyncToken)
tokens_from m String.[] = flush m (some [])
tokens_from (in_name w) (String.◌∷◌ c s) = elim (class_of c) [
  | quote ↦ tokens_from (behind_quote w) s
  | _ ↦ tokens_from (in_name (w ++ of_char c)) s
]
tokens_from (in_word w) (String.◌∷◌ c s) = elim (class_of c) [
  | space ↦ push (bare w) (tokens_from between s)
  | punct ↦ push (bare w) (push (bare (of_char c)) (tokens_from between s))
  | quote ↦ push (bare w) (tokens_from (in_name "") s)
  | other ↦ tokens_from (in_word (w ++ of_char c)) s
]
tokens_from (behind_quote w) (String.◌∷◌ c s) = elim (class_of c) [
  | space ↦ push (in_quotes w) (tokens_from between s)
  | punct ↦ push (in_quotes w) (push (bare (of_char c)) (tokens_from between s))
  | quote ↦ tokens_from (in_name (w ++ of_char c)) s
  | other ↦ push (in_quotes w) (tokens_from (in_word (of_char c)) s)
]
tokens_from between (String.◌∷◌ c s) = elim (class_of c) [
  | space ↦ tokens_from between s
  | punct ↦ push (bare (of_char c)) (tokens_from between s)
  | quote ↦ tokens_from (in_name "") s
  | other ↦ tokens_from (in_word (of_char c)) s
]

-- syncTokens
unfoldable pub sync_tokens : String → Option (List SyncToken)
unfolding tokens_from class_of
sync_tokens s = tokens_from between s

-- The decimal digits of strconv.Atoi behind a sign.
unfoldable pub read_some_digits : String → Option ℕ
unfolding read_digits
read_some_digits String.[] = none
read_some_digits (String.◌∷◌ c s) = read_digits 0 (String.◌∷◌ c s)

-- The range of int.
in_int : Bool → ℕ → Option ℤ
in_int minus n =
    if minus
    then (if leb n 9223372036854775808 then some (sub_ℕ 0 n) else none)
    else if ltb n 9223372036854775808
    then some (pos n)
    else none

abbrev pub then_int : Bool → Option ℕ → Option ℤ
unfolding in_int
then_int minus none = none
then_int minus (some n) = in_int minus n

-- strconv.Atoi
unfoldable pub atoi : String → Option ℤ
unfolding read_some_digits in_int
atoi String.[] = none
atoi (String.◌∷◌ c s) =
    if code c == b'-'
    then then_int true (read_some_digits s)
    else if code c == b'+'
    then then_int false (read_some_digits s)
    else then_int false (read_some_digits (String.◌∷◌ c s))

abbrev pub is_bare : SyncToken → String → Bool
is_bare t s = str_eq t.s s && not t.quoted

-- name {, name}: the names at the even places, bare commas at the odd ones.
unfoldable pub read_names : List SyncToken → Option (List String)
read_names [] = none
read_names (t ∷ []) =
    if t.quoted || not (str_eq t.s ",") && not (str_eq t.s "(") && not (str_eq t.s ")")
    then some (t.s ∷ [])
    else none
read_names (t ∷ comma ∷ ts) =
    let rest = read_names ts in
    if (t.quoted || not (str_eq t.s ",") && not (str_eq t.s "(") && not (str_eq t.s ")"))
      && is_bare comma ","
    then elim rest [ none ↦ none | some names ↦ some (t.s ∷ names) ]
    else none

-- toks[:len(toks)-1] if the last token is a bare closing parenthesis
unfoldable pub drop_close : List SyncToken → Option (List SyncToken)
drop_close [] = none
drop_close (t ∷ []) = if is_bare t ")" then some [] else none
drop_close (t ∷ u ∷ ts) = push t (drop_close (u ∷ ts))

abbrev pub with_need : ℤ → Option (List String) → Option (ℤ × List String)
with_need need none = none
with_need need (some names) = some (need, names)

-- N ( ... ): the number in front of an opening parenthesis.
unfoldable pub counted : List SyncToken → Option (ℤ × List SyncToken)
counted (t ∷ open_par ∷ ts) =
    if not t.quoted && is_bare open_par "("
    then elim (atoi t.s) [ none ↦ none | some n ↦ some (n, ts) ]
    else none
counted _ = none

-- parseSyncNames behind FIRST or ANY (`keyword`), or without one.
unfoldable pub parse_from : Bool → List SyncToken → Option (ℤ × List String)
unfolding counted
parse_from keyword toks = elim (counted toks) [
  | some (n, ts) ↦
      if ltb_ℤ n (pos 0)
      then none
      else elim (drop_close ts) [ none ↦ none | some inner ↦ with_need n (read_names inner) ]
  | none ↦ if keyword then none else with_need (pos 1) (read_names toks)
]

module _ ⦃u : Unicode⦄ where
  -- parseSyncNames of the tokens; `none` is ok == false.
  unfoldable pub parse_tokens : List SyncToken → Option (ℤ × List String)
  unfolding parse_from
  parse_tokens [] = some (pos 0, [])
  parse_tokens (t ∷ []) = parse_from false (t ∷ [])
  parse_tokens (t ∷ t' ∷ ts) =
      if not t.quoted && (u.equal_fold t.s "first" || u.equal_fold t.s "any")
      then parse_from true (t' ∷ ts)
      else parse_from false (t ∷ t' ∷ ts)

  -- parseSyncNames
  unfoldable pub parse_sync_names : String → Option (ℤ × List String)
  parse_sync_names s = elim (sync_tokens s) [ none ↦ none | some toks ↦ parse_tokens toks ]

  -- The keyword that SyncNames looks for among more than two tokens.
  unfoldable pub is_any : Option (List SyncToken) → Bool
  is_any (some (t ∷ t' ∷ t'' ∷ ts)) = not t.quoted && u.equal_fold t.s "any"
  is_any _ = false

  -- SyncNames: need, names, desc; `none` is ok == false.
  unfoldable pub sync_names : String → Option (ℤ × List String × String)
  unfolding parse_sync_names is_any
  sync_names s = elim (parse_sync_names s) [
    | none ↦ none
    | some (need, names) ↦
        let list = join ", " names in
        let desc =
          if is_any (sync_tokens s)
          then concat ("any " ∷ show need ∷ " of " ∷ list ∷ " must confirm" ∷ [])
          else concat
              ("the first " ∷ show need ∷ " of " ∷ list ∷ " by priority must confirm" ∷ []) in
        if eqb_ℤ need (pos 0) then some (need, names, "") else some (need, names, desc)
  ]
