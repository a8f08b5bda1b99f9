-- ===== src/Report/Layout/Columns.antt =====
-- internal/report/table.go: the columns of writeTable.
use Prim.Native.Char.{Char, code}
use text.Mathlib.TextEquality.{codes_equal}
use Prim.Native.String.{◌++◌}
use kbdiag.Prelude.{
  if◌then◌else◌, ℕ, zero, suc, ◌+◌, ◌-◌, ◌≤◌, ◌<◌, ◌==◌, String, Bool, true, false, Option, none,
  some, map, List, [], ◌∷◌, length, drop, inl, inr, Bool-cases, ◌≡◌, refl, sym, ap, ◌∙◌, ◌&&◌,
  arith,
}
use mathlib.Core.List.{◌++◌ as ◌+++◌}
use text.Mathlib.TextLemmas.{cons-append, nil-append, append-nil, append_assoc}
use kbdiag.Rule.Names.{is_empty}
use kbdiag.Report.Layout.{
  Terminal, spaces, trim_right, display_width, widen, widths_from, row_text, all_rows, table_line,
  write_table,
}
use kbdiag.Report.Layout.Widths.{IsTerminal, display_width-append, display_width-spaces}

-- The widths of the columns before the k-th one, with the two spaces after each.
abbrev pub column_start : ℕ → List ℕ → ℕ
column_start zero ws = 0
column_start (suc k) [] = 0
column_start (suc k) (w ∷ ws) = w + 2 + column_start k ws

module _ ⦃t : Terminal⦄ where
  -- Every cell of the row is as wide as its column, or narrower.
  abbrev pub Covers : List ℕ → List String → Type 0
  Covers ws [] = Unit
  Covers [] (c ∷ cs) = ⊥
  Covers (w ∷ ws) (c ∷ cs) = (display_width c ≤ w) × Covers ws cs

  widen-Covers : (ws : List ℕ) (r : List String) → Covers (widen ws r) r
  unfolding widen
  widen-Covers [] [] = tt
  widen-Covers [] (c ∷ cs) = (omega arith, widen-Covers [] cs)
  widen-Covers (w ∷ ws) [] = tt
  widen-Covers (w ∷ ws) (c ∷ cs) = (omega arith, widen-Covers ws cs)

  Covers-widen : (ws : List ℕ) (r s : List String) → Covers ws r → Covers (widen ws s) r
  unfolding widen
  Covers-widen ws [] s h = tt
  Covers-widen [] (c ∷ cs) s h = absurd h
  Covers-widen (w ∷ ws) (c ∷ cs) [] h = h
  Covers-widen (w ∷ ws) (c ∷ cs) (d ∷ ds) (h, hs) = (omega (arith, h), Covers-widen ws cs ds hs)

  Covers-widths_from :
      (rows : List (List String)) (ws : List ℕ) (r : List String)
      → Covers ws r
      → Covers (widths_from ws rows) r
  unfolding widths_from
  Covers-widths_from [] ws r h = h
  Covers-widths_from (s ∷ rows) ws r h =
      Covers-widths_from rows (widen ws s) r (Covers-widen ws r s h)

  widths_from-Covers :
      (before after : List (List String)) (ws : List ℕ) (r : List String)
      → Covers (widths_from ws (before +++ (r ∷ after))) r
  unfolding widths_from
  widths_from-Covers [] after ws r = Covers-widths_from after (widen ws r) r (widen-Covers ws r)
  widths_from-Covers (s ∷ before) after ws r = widths_from-Covers before after (widen ws s) r

  -- Where the k-th cell of a row starts: what stands before it, and how wide that is.
  abbrev pub StartsAt : ℕ → List ℕ → List String → Type 0
  StartsAt k ws r =
      (p : String) × (row_text ws r ≡ p ++ row_text (drop k ws) (drop k r))
      × (display_width p ≡ column_start k ws)

  row_text-StartsAt :
      IsTerminal t
      → (k : ℕ) (ws : List ℕ) (r : List String) → Covers ws r
      → k < length r
      → StartsAt k ws r
  unfolding row_text display_width
  row_text-StartsAt ok zero ws r h l = ("", sym (nil-append _), refl)
  row_text-StartsAt ok (suc k) ws [] h l = absurd (omega (arith, l))
  row_text-StartsAt ok (suc k) ws (c ∷ []) h l = absurd (omega (arith, l))
  row_text-StartsAt ok (suc k) [] (c ∷ d ∷ cs) h l = absurd h
  row_text-StartsAt ok (suc k) (w ∷ ws) (c ∷ d ∷ cs) (h, hs) l =
      let (p, text, wide) = row_text-StartsAt ok k ws (d ∷ cs) hs (omega (arith, l)) in
      let gap = spaces (w - display_width c + 2) in
      (
        c ++ (gap ++ p),
        rw text (rw append_assoc (rw append_assoc refl)),
        ground (
          arith,
          h,
          wide,
          display_width-append c (gap ++ p),
          display_width-append gap p,
          display_width-spaces ok (w - display_width c + 2),
        ),
      )

abbrev pub ends_in_space : String → Bool
ends_in_space String.[] = false
ends_in_space (String.◌∷◌ c s) = if is_empty s then code c == b' ' else ends_in_space s

-- What trimming leaves of a text: it ends in no space, and only spaces are gone.
abbrev pub IsTrimmed : String → Type 0
IsTrimmed s = ((n : ℕ) × (s ≡ trim_right s ++ spaces n)) × (ends_in_space (trim_right s) ≡ false)

is_empty-eq : (s : String) → is_empty s ≡ true → s ≡ ""
is_empty-eq String.[] h = refl
is_empty-eq (String.◌∷◌ c s) h = absurd (ground (arith, h))

spaces-suc :
    (c : Char) (s : String) (n : ℕ)
    → (code c == b' ') ≡ true
    → s ≡ spaces n
    → String.◌∷◌ c s ≡ spaces (suc n)
unfolding spaces
spaces-suc c s n h e = rw cons-append (
    rw nil-append
      (ap (λ d. String.◌∷◌ d s) (codes_equal c " " (ground (arith, h))) ∙ ap (String.◌∷◌ " ") e))

-- A line of a table never ends in a space, and nothing but spaces was cut off its end.
pub trim_right-IsTrimmed : (s : String) → IsTrimmed s
unfolding trim_right
trim_right-IsTrimmed String.[] = ((0, unfold spaces in refl), refl)
trim_right-IsTrimmed (String.◌∷◌ c s) =
    let ((n, e), h) = trim_right-IsTrimmed s in
    elim (Bool-cases (is_empty (trim_right s) && code c == b' ')) [
      | inl gone ↦
          let none_left : trim_right s ≡ "" = is_empty-eq (trim_right s) (ground (arith, gone)) in
          rw gone (
            (
              suc n,
              rw nil-append (
                  spaces-suc c s n (ground (arith, gone))
                    (e ∙ ap (λ u. u ++ spaces n) none_left ∙ nil-append (spaces n))),
            ),
            refl,
          )
      | inr kept ↦ rw kept ((n, rw cons-append (ap (String.◌∷◌ c) e)), ground (arith, kept, h))
    ]

-- The rows that are printed: the header, where there is one, and the others.
abbrev pub with_header : Option (List String) → List (List String) → List (List String)
with_header none rows = rows
with_header (some h) rows = h ∷ rows

-- The row of the table after the rows `before` is the line after as many lines, and its k-th cell
-- stands in it after the indent and `start` terminal columns. The spaces at a line's end are cut off.
pub record PrintedAt ⦃t : Terminal⦄ (indent : String) (lines : List String)
    (before : List (List String)) (r : List String) (k start : ℕ) : Type 0 where
  pub above : List String
  pub line : String
  pub below : List String
  pub left : String
  pub cell : String
  pub right : String
  pub later : List String
  pub cut : ℕ
  pub placed : lines ≡ above +++ (line ∷ below)
  pub counted : length above ≡ length before
  pub padded : indent ++ (left ++ (cell ++ right)) ≡ line ++ spaces cut
  pub is_cell : drop k r ≡ cell ∷ later
  pub wide : display_width left ≡ start

module _ ⦃t : Terminal⦄ where
  all_rows-with_header :
      (header : Option (List String)) (rows : List (List String))
      → all_rows header rows ≡ with_header header rows
  unfolding all_rows
  all_rows-with_header none rows = refl
  all_rows-with_header (some h) rows = refl

  -- A row from its k-th cell on starts with that cell.
  row_text-cell :
      (k : ℕ) (ws : List ℕ) (r : List String)
      → k < length r
      → (c : String) × (q : String) × (later : List String) × (drop k r ≡ c ∷ later)
        × (row_text ws (drop k r) ≡ c ++ q)
  unfolding row_text
  row_text-cell k ws [] l = absurd (omega (arith, l))
  row_text-cell zero ws (c ∷ []) l = (c, "", [], refl, sym (append-nil c))
  row_text-cell zero [] (c ∷ d ∷ cs) l = (c, row_text [] (d ∷ cs), d ∷ cs, refl, refl)
  row_text-cell zero (w ∷ ws) (c ∷ d ∷ cs) l =
      (c, spaces (w - display_width c + 2) ++ row_text ws (d ∷ cs), d ∷ cs, refl, refl)
  row_text-cell (suc k) ws (c ∷ cs) l = row_text-cell k ws cs (omega (arith, l))

  map-split :
      {A : Type 0} (f : A → String) (before after : List A) (x : A)
      → (map f (before +++ (x ∷ after)) ≡ map f before +++ (f x ∷ map f after))
        × (length (map f before) ≡ length before)
  map-split f [] after x = (refl, refl)
  map-split f (y ∷ before) after x =
      let (e, n) = map-split f before after x in (ap (◌∷◌ (f y)) e, ap suc n)

  -- The columns that writeTable prints line up: in every line, that of the header included, the k-th
  -- cell of the row stands after the indent and the same number of terminal columns, namely the
  -- widths of the columns before it with two spaces after each, where a space takes one column.
  pub write_table-aligned :
      IsTerminal t
      → (indent : String) (header : Option (List String)) (rows before after : List (List String))
        (r : List String)
      → with_header header rows ≡ before +++ (r ∷ after)
      → (k : ℕ) → k < length r
      → PrintedAt indent
          (write_table indent header rows)
          before
          r
          k
          (column_start k (widths_from [] (with_header header rows)))
  unfolding write_table table_line
  write_table-aligned ok indent header rows before after r e k l =
      let ws = widths_from [] (with_header header rows) in
      let f = table_line indent ws in
      let covered : Covers ws r = rw e (widths_from-Covers before after [] r) in
      let (left, text, wide) = row_text-StartsAt ok k ws r covered l in
      let (cell, right, later, is_cell, rest) = row_text-cell k (drop k ws) r l in
      let ((cut, trimmed), _) = trim_right-IsTrimmed (indent ++ row_text ws r) in
      let (split, counted) = map-split f before after r in
      record {
        above = map f before;
        line = f r;
        below = map f after;
        left = left;
        cell = cell;
        right = right;
        later = later;
        cut = cut;
        placed =
            ap (λ z. map (table_line indent (widths_from [] z)) z)
              (all_rows-with_header header rows)
            ∙ ap (map f) e
            ∙ split;
        counted = counted;
        padded = ap (λ z. indent ++ z) (sym (text ∙ ap (λ z. left ++ z) rest)) ∙ trimmed;
        is_cell = is_cell;
        wide = wide;
      }
