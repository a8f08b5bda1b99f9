-- ===== src/Report/Render/Cells.antt =====
-- internal/report/render.go: what a cell of a text table can hold.
use Prim.Native.String.{◌++◌}
use kbdiag.Prelude.{
  ℕ, zero, suc, ◌+◌, ◌≤◌, ltb, String, Bool, false, inl, inr, Bool-cases, ◌≡◌, refl, arith, join,
}
use text.Mathlib.TextLemmas.{cons-append, nil-append}
use kbdiag.Facts.Base.{Value, null, int, str, bool, float, strs, ints}
use kbdiag.Rule.Names.{any_char, is_hostile, is_control, is_format}
use kbdiag.Rule.Names.Booleans.{text_length}
use kbdiag.Rule.Names.Chars.{any_char-append}
use kbdiag.Report.Render.{
  Prints, cell, cell_text, cut_cell, take_text, max_cell, escape_control, fields, sprint,
}
use kbdiag.Report.Render.Escaping.{escape_control-plain}

text_length-append : (s t : String) → text_length (s ++ t) ≡ text_length s + text_length t
unfolding text_length
text_length-append String.[] t = rw nil-append omega arith
text_length-append (String.◌∷◌ c s) t = rw cons-append (omega (arith, text_length-append s t))

text_length-take_text : (n : ℕ) (s : String) → text_length (take_text n s) ≤ n
unfolding text_length
text_length-take_text zero s = omega arith
text_length-take_text (suc n) String.[] = omega arith
text_length-take_text (suc n) (String.◌∷◌ c s) = omega (arith, text_length-take_text n s)

any_char-take_text :
    (p : ℕ → Bool) (n : ℕ) (s : String) → any_char p s ≡ false → any_char p (take_text n s) ≡ false
any_char-take_text p zero s h = refl
any_char-take_text p (suc n) String.[] h = refl
any_char-take_text p (suc n) (String.◌∷◌ c s) h = ground (arith, h, any_char-take_text p n s)

cut_cell-bounds :
    (s : String)
    → any_char is_hostile s ≡ false
    → (text_length (cut_cell s) ≤ 60) × (any_char is_hostile (cut_cell s) ≡ false)
unfolding cut_cell text_length is_hostile is_control is_format
cut_cell-bounds s h = elim (Bool-cases (ltb max_cell (text_length s))) [
  | inl e ↦ rw e (
    omega (arith, text_length-append (take_text 57 s) "...", text_length-take_text 57 s),
    ground (
      arith,
      any_char-append is_hostile (take_text 57 s) "...",
      any_char-take_text is_hostile 57 s h,
    ),
  )
  | inr e ↦ rw e (ground (arith, e), h)
]

cell_text-bounds :
    (s : String) → (text_length (cell_text s) ≤ 60) × (any_char is_hostile (cell_text s) ≡ false)
unfolding cell_text
cell_text-bounds s =
    cut_cell-bounds (escape_control (join " " (fields s)))
      (escape_control-plain (join " " (fields s))).0

-- Every cell of a text table, whatever value the server sent for it, is at most 60 runes long and
-- has no control or format character or line or paragraph separator in it.
pub cell-bounds :
    {F : Type 0} ⦃pr : Prints F⦄ (v : Value F)
    → (text_length (cell v) ≤ 60) × (any_char is_hostile (cell v) ≡ false)
unfolding cell text_length is_hostile is_control is_format
cell-bounds null = (omega arith, refl)
cell-bounds {F} (int n) = cell_text-bounds (sprint {F = F} (int n))
cell-bounds {F} (str s) = cell_text-bounds (sprint {F = F} (str s))
cell-bounds {F} (bool b) = cell_text-bounds (sprint {F = F} (bool b))
cell-bounds {F} (float x) = cell_text-bounds (sprint {F = F} (float x))
cell-bounds {F} (strs l) = cell_text-bounds (sprint {F = F} (strs l))
cell-bounds {F} (ints l) = cell_text-bounds (sprint {F = F} (ints l))
