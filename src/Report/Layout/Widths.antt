-- ===== src/Report/Layout/Widths.antt =====
-- internal/report/table.go: how wide a text is when it is shown.
use Prim.Native.Char.{code}
use Prim.Native.String.{◌++◌}
use kbdiag.Prelude.{
  ℕ, zero, suc, ◌+◌, ◌-◌, ◌≤◌, leb, ltb, String, false, inl, inr, Bool-cases, ◌≡◌, refl, arith,
}
use text.Mathlib.TextLemmas.{cons-append, nil-append}
use kbdiag.Facts.Base.{Value}
use kbdiag.Report.Render.{Prints, cell}
use kbdiag.Report.Layout.{Terminal, spaces, rune_width, display_width, fit_runes, fit_width, name}

-- The width of ASCII, as Unicode has it: narrow.
pub record IsTerminal (t : Terminal) : Type 0 where
  pub narrow_space : t.is_wide b' ' ≡ false
  pub narrow_dot : t.is_wide b'.' ≡ false

module _ ⦃t : Terminal⦄ where
  pub display_width-append :
      (s u : String) → display_width (s ++ u) ≡ display_width s + display_width u
  unfolding display_width
  display_width-append String.[] u = rw nil-append omega arith
  display_width-append (String.◌∷◌ c s) u = rw cons-append (omega (arith, display_width-append s u))

  fit_runes-bound : (w n : ℕ) (s : String) → n ≤ w - 3 → n + display_width (fit_runes w n s) ≤ w - 3
  unfolding display_width fit_runes
  fit_runes-bound w n String.[] h = omega (arith, h)
  fit_runes-bound w n (String.◌∷◌ c s) h =
      elim (Bool-cases (ltb (w - 3) (n + rune_width (code c)))) [
        | inl e ↦ rw e omega (arith, h)
        | inr e ↦ rw e (ground (arith, e, fit_runes-bound w (n + rune_width (code c)) s))
      ]

  module _ (ok : IsTerminal t) where
    pub display_width-spaces : (n : ℕ) → display_width (spaces n) ≡ n
    unfolding display_width spaces
    display_width-spaces zero = refl
    display_width-spaces (suc n) =
        rw cons-append (rw nil-append (ground (arith, ok.narrow_space, display_width-spaces n)))

    -- A text cut to fit takes no more columns than asked for, from three columns on.
    fit_width-bound : (s : String) (w : ℕ) → 3 ≤ w → display_width (fit_width s w) ≤ w
    unfolding fit_width
    fit_width-bound s w h = elim (Bool-cases (leb (display_width s) w)) [
      | inl e ↦ rw e (ground (arith, e))
      | inr e ↦ rw e (
          ground
            (arith, h, display_width-append (fit_runes w 0 s) "...", fit_runes-bound w 0 s, dots))
    ]
      where
        dots : display_width "..." ≡ 3
        dots = unfold display_width in ground (arith, ok.narrow_dot)

    -- A name in a table takes at most 30 columns, whatever the server sent, where a dot takes one.
    pub name-bound : {F : Type 0} ⦃pr : Prints F⦄ (v : Value F) → display_width (name v) ≤ 30
    unfolding name
    name-bound v = fit_width-bound (cell v) 30 (omega arith)
