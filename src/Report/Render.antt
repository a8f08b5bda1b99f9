-- ===== src/Report/Render.antt =====
-- internal/report/render.go: the cells of the text tables. A Go string is a native text, so it is
-- valid UTF-8 and escapeControl meets no byte that is not.
pub mod Escaping
pub mod Cells
use Prim.Native.Char.{code}
use Prim.Native.String.{◌++◌}
use kbdiag.Prelude.{
  ℕ, zero, suc, ◌-◌, ◌/◌, ◌%◌, ◌==◌, ltb, leb, String, Bool, true, false, List, [], ◌∷◌, ◌||◌, not,
  ◌&&◌, map, digit, show, join, concat, if◌then◌else◌,
}
use kbdiag.Facts.Base.{Value, null, int, str, bool, float, strs, ints}
use kbdiag.Rule.Names.{is_hostile, any_char, is_empty}
use kbdiag.Rule.Names.Booleans.{text_length}

-- One digit of %x
unfoldable pub hex_digit : ℕ → String
unfolding digit
hex_digit d =
    if ltb d 10
    then digit d
    else if d == 10
    then "a"
    else if d == 11
    then "b"
    else if d == 12
    then "c"
    else if d == 13
    then "d"
    else if d == 14
    then "e"
    else "f"

-- %02x of a number below 256
unfoldable pub hex2 : ℕ → String
unfolding hex_digit
hex2 r = hex_digit (r / 16 % 16) ++ hex_digit (r % 16)

-- %04x of a rune, which has at most six digits
unfoldable pub hex4 : ℕ → String
unfolding hex2
hex4 r =
    (if ltb r 0x10000
      then ""
      else if ltb r 0x100000
      then hex_digit (r / 0x10000 % 16)
      else hex2 (r / 0x10000))
    ++ (hex2 (r / 0x100) ++ hex2 r)

-- One rune of escapeControl.
unfoldable pub escape_rune : ℕ → String
unfolding hex4
escape_rune r = if ltb r 0x80 then "\\x" ++ hex2 r else "\\u" ++ hex4 r

-- The loop of escapeControl
unfoldable pub escape_runes : String → String
unfolding escape_rune is_hostile
escape_runes String.[] = ""
escape_runes (String.◌∷◌ c s) =
    let rest = escape_runes s in
    if is_hostile (code c) then escape_rune (code c) ++ rest else String.◌∷◌ c rest

-- escapeControl
unfoldable pub escape_control : String → String
unfolding escape_runes
escape_control s = if any_char is_hostile s then escape_runes s else s

-- unicode.IsSpace
unfoldable pub is_space : ℕ → Bool
is_space r =
    leb 0x09 r && leb r 0x0d
    || r == 0x20
    || r == 0x85
    || r == 0xa0
    || r == 0x1680
    || leb 0x2000 r && leb r 0x200a
    || r == 0x2028
    || r == 0x2029
    || r == 0x202f
    || r == 0x205f
    || r == 0x3000

-- A word that was begun, in front of the words that follow it.
abbrev pub begun : String → List String → List String
begun word words = if is_empty word then words else word ∷ words

-- The words of a text, and the one that its first characters begin.
unfoldable pub split_words : String → String × List String
unfolding is_space
split_words String.[] = ("", [])
split_words (String.◌∷◌ c s) =
    let rest = split_words s in
    if is_space (code c) then ("", begun rest.0 rest.1) else (String.◌∷◌ c rest.0, rest.1)

-- strings.Fields
unfoldable pub fields : String → List String
unfolding split_words
fields s = begun (split_words s).0 (split_words s).1

-- []rune(s)[:n]
abbrev pub take_text : ℕ → String → String
take_text zero s = ""
take_text (suc n) String.[] = ""
take_text (suc n) (String.◌∷◌ c s) = String.◌∷◌ c (take_text n s)

abbrev pub max_cell : ℕ
max_cell = 60

-- fmt.Sprint of a float64.
pub record Prints (F : Type 0) : Type 0 where
  pub sprint : F → String

-- fmt.Sprint(v) of a value that is not nil: a slice in brackets.
unfoldable pub sprint : {F : Type 0} ⦃pr : Prints F⦄ → Value F → String
sprint null = ""
sprint (int n) = show n
sprint (str s) = s
sprint (bool b) = if b then "true" else "false"
sprint ⦃pr⦄ (float x) = pr.sprint x
sprint (strs l) = concat ("[" ∷ join " " l ∷ "]" ∷ [])
sprint (ints l) = concat ("[" ∷ join " " (map show l) ∷ "]" ∷ [])

-- The end of cell: a text of more than maxCell runes is cut.
unfoldable pub cut_cell : String → String
unfolding text_length
cut_cell s = if ltb max_cell (text_length s) then take_text (max_cell - 3) s ++ "..." else s

-- A printed value as a cell: whitespace collapsed, escaped and cut.
unfoldable pub cell_text : String → String
unfolding cut_cell escape_control fields
cell_text s = cut_cell (escape_control (join " " (fields s)))

-- cell
unfoldable pub cell : {F : Type 0} ⦃pr : Prints F⦄ → Value F → String
unfolding cell_text sprint
cell null = "-"
cell v = cell_text (sprint v)
