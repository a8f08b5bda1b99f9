-- ===== src/Rule/Names.antt =====
-- internal/rule/names.go, and shellWord of internal/rule/freeze.go. A Go string is a native text,
-- so it is valid UTF-8 and the test `!utf8.ValidString(s)` is false.
pub mod Quoting
pub mod Chars
pub mod Booleans
use Prim.Native.Char.{Char, code}
use Prim.Native.String.{◌++◌, ◌∷◌}
use kbdiag.Prelude.{
  ℕ, suc, ◌+◌, ◌==◌, leb, ltb, String, Bool, true, false, Option, none, some, List, ◌&&◌, ◌||◌, not,
  concat, str_eq, if◌then◌else◌,
}
use kbdiag.Rule.Names.Words.{keywords}
mod Words

-- The code points of a text.
abbrev pub any_char : (ℕ → Bool) → String → Bool
any_char p String.[] = false
any_char p (String.◌∷◌ c s) = p (code c) || any_char p s

abbrev pub is_empty : String → Bool
is_empty String.[] = true
is_empty _ = false

-- strings.ReplaceAll of a one-character text
unfoldable pub replace_char : ℕ → String → String → String
replace_char old new String.[] = ""
replace_char old new (String.◌∷◌ c s) =
    let rest = replace_char old new s in if code c == old then new ++ rest else String.◌∷◌ c rest

-- keywords[k]
abbrev pub listed : String → List String → Bool
listed k List.[] = false
listed k (List.◌∷◌ w ws) = str_eq w k || listed k ws

unfoldable pub is_keyword : String → Bool
unfolding keywords
is_keyword s = listed s keywords

-- r >= 'a' && r <= 'z' || r == '_' || i > 0 && (r >= '0' && r <= '9' || r == '$')
abbrev pub plain_start : ℕ → Bool
plain_start r = leb b'a' r && leb r b'z' || r == b'_'

abbrev pub plain_later : ℕ → Bool
plain_later r = plain_start r || (leb b'0' r && leb r b'9' || r == b'$')

-- The loop of quoteIdent over the runes: the first one is at i == 0.
abbrev pub plain_runes : String → Bool
plain_runes String.[] = true
plain_runes (String.◌∷◌ c s) = plain_start (code c) && not (any_char (λ r. not (plain_later r)) s)

-- quoteIdent
unfoldable pub quote_ident : String → String
unfolding is_keyword replace_char
quote_ident s =
    if not (is_empty s) && not (is_keyword s) && plain_runes s
    then s
    else "\"" ++ replace_char b'"' "\"\"" s ++ "\""

-- qualified
unfoldable pub qualified : String → String → String
qualified schema rel =
    concat (List.◌∷◌ (quote_ident schema) (List.◌∷◌ "." (List.◌∷◌ (quote_ident rel) List.[])))

-- unicode.IsControl
unfoldable pub is_control : ℕ → Bool
is_control r = leb r 0x1f || leb 0x7f r && leb r 0x9f

abbrev pub in_range : ℕ → ℕ → ℕ → Bool
in_range lo hi r = leb lo r && leb r hi

-- unicode.In(r, unicode.Cf, unicode.Zl, unicode.Zp), by the tables of Unicode 15
unfoldable pub is_format : ℕ → Bool
is_format r =
    r == 0xad
    || in_range 0x600 0x605 r
    || r == 0x61c
    || r == 0x6dd
    || r == 0x70f
    || in_range 0x890 0x891 r
    || r == 0x8e2
    || r == 0x180e
    || in_range 0x200b 0x200f r
    || in_range 0x2028 0x202e r
    || in_range 0x2060 0x2064 r
    || in_range 0x2066 0x206f r
    || r == 0xfeff
    || in_range 0xfff9 0xfffb r
    || r == 0x110bd
    || r == 0x110cd
    || in_range 0x13430 0x1343f r
    || in_range 0x1bca0 0x1bca3 r
    || in_range 0x1d173 0x1d17a r
    || r == 0xe0001
    || in_range 0xe0020 0xe007f r

-- The test that hasControl and report's escapeControl make of a rune.
unfoldable pub is_hostile : ℕ → Bool
unfolding is_control is_format
is_hostile r = is_control r || is_format r

-- hasControl
unfoldable pub has_control : String → Bool
has_control s = any_char is_hostile s
