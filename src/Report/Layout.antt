-- ===== src/Report/Layout.antt =====
-- internal/report/table.go: widths in terminal columns, and aligned tables. The lines are written to
-- an io.Writer whose errors are passed on: here they are the list of the lines.
pub mod Widths
pub mod Columns
use Prim.Native.Char.{code}
use Prim.Native.String.{◌++◌}
use kbdiag.Prelude.{
  ℕ, zero, suc, ◌+◌, ◌-◌, ◌==◌, leb, ltb, max, String, Bool, true, false, Option, none, some, List,
  [], ◌∷◌, ◌&&◌, map, if◌then◌else◌,
}
use kbdiag.Facts.Base.{Value}
use kbdiag.Rule.Names.{is_empty}
use kbdiag.Report.Render.{Prints, cell}

-- golang.org/x/text/width: whether width.LookupRune(r).Kind() is EastAsianWide or EastAsianFullwidth.
pub record Terminal : Type 0 where
  pub is_wide : ℕ → Bool

-- strings.Repeat(" ", n)
unfoldable pub spaces : ℕ → String
spaces zero = ""
spaces (suc n) = " " ++ spaces n

-- strings.TrimRight(s, " ")
unfoldable pub trim_right : String → String
trim_right String.[] = ""
trim_right (String.◌∷◌ c s) =
    let rest = trim_right s in if is_empty rest && code c == b' ' then "" else String.◌∷◌ c rest

-- all of writeTable: a nil header is `none`
unfoldable pub all_rows : Option (List String) → List (List String) → List (List String)
all_rows none rows = rows
all_rows (some header) rows = header ∷ rows

abbrev pub max_name : ℕ
max_name = 30

module _ ⦃t : Terminal⦄ where
  abbrev pub rune_width : ℕ → ℕ
  rune_width r = if t.is_wide r then 2 else 1

  -- displayWidth
  unfoldable pub display_width : String → ℕ
  display_width String.[] = 0
  display_width (String.◌∷◌ c s) = rune_width (code c) + display_width s

  -- The loop of fitWidth: `n` columns are written.
  unfoldable pub fit_runes : ℕ → ℕ → String → String
  fit_runes w n String.[] = ""
  fit_runes w n (String.◌∷◌ c s) =
      let rest = fit_runes w (n + rune_width (code c)) s in
      if ltb (w - 3) (n + rune_width (code c)) then "" else String.◌∷◌ c rest

  -- fitWidth
  unfoldable pub fit_width : String → ℕ → String
  unfolding display_width fit_runes
  fit_width s w = if leb (display_width s) w then s else fit_runes w 0 s ++ "..."

  -- name
  unfoldable pub name : {F : Type 0} ⦃pr : Prints F⦄ → Value F → String
  unfolding fit_width
  name v = fit_width (cell v) max_name

  -- The widths of writeTable after one more row. They are as many as the longest row has cells: a
  -- width that a row is the first to need was 0 before.
  unfoldable pub widen : List ℕ → List String → List ℕ
  unfolding display_width
  widen [] [] = []
  widen [] (c ∷ cs) = display_width c ∷ widen [] cs
  widen (w ∷ ws) [] = w ∷ ws
  widen (w ∷ ws) (c ∷ cs) = max w (display_width c) ∷ widen ws cs

  unfoldable pub widths_from : List ℕ → List (List String) → List ℕ
  unfolding widen
  widths_from ws [] = ws
  widths_from ws (r ∷ rs) = widths_from (widen ws r) rs

  -- The cells of one row, each but the last followed by the spaces up to the next column.
  unfoldable pub row_text : List ℕ → List String → String
  unfolding display_width spaces
  row_text ws [] = ""
  row_text ws (c ∷ []) = c
  row_text [] (c ∷ d ∷ cs) = c ++ row_text [] (d ∷ cs)
  row_text (w ∷ ws) (c ∷ d ∷ cs) = c ++ (spaces (w - display_width c + 2) ++ row_text ws (d ∷ cs))

  unfoldable pub table_line : String → List ℕ → List String → String
  unfolding trim_right row_text
  table_line indent ws r = trim_right (indent ++ row_text ws r)

  -- writeTable
  unfoldable pub write_table : String → Option (List String) → List (List String) → List String
  unfolding table_line widths_from all_rows
  write_table indent header rows =
      map (table_line indent (widths_from [] (all_rows header rows))) (all_rows header rows)
