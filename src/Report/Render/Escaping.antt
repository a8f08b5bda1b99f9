-- ===== src/Report/Render/Escaping.antt =====
-- internal/report/render.go: what escapeControl promises of its result.
use Prim.Native.Char.{code}
use Prim.Native.String.{◌++◌}
use kbdiag.Prelude.{
  ℕ, ◌/◌, ◌%◌, ltb, ◌==◌, String, Bool, true, false, if◌then◌else◌, ◌≡◌, refl, inl, inr, Bool-cases,
  digit, arith,
}
use kbdiag.Rule.Names.{any_char, is_hostile, is_control, is_format}
use kbdiag.Rule.Names.Chars.{any_char-append}
use kbdiag.Report.Render.{hex_digit, hex2, hex4, escape_rune, escape_runes, escape_control}

-- No hostile rune in the text.
record IsPlain (s : String) : Type 0 where
  harmless : any_char is_hostile s ≡ false

plain : (s : String) → any_char is_hostile s ≡ false → IsPlain s
plain s h = record { harmless = h }

IsPlain-if : (b : Bool) {s t : String} → IsPlain s → IsPlain t → IsPlain (if b then s else t)
IsPlain-if true p q = p
IsPlain-if false p q = q

IsPlain-append : {s t : String} → IsPlain s → IsPlain t → IsPlain (s ++ t)
IsPlain-append {s} {t} p q =
    plain (s ++ t) (ground (arith, any_char-append is_hostile s t, p.harmless, q.harmless))

module _ (d : ℕ) where
  digit-IsPlain : IsPlain (digit d)
  unfolding digit is_hostile is_control is_format
  digit-IsPlain = IsPlain-if (d == 0) (plain "0" refl) (
      IsPlain-if (d == 1) (plain "1" refl) (
        IsPlain-if (d == 2) (plain "2" refl) (
          IsPlain-if (d == 3) (plain "3" refl) (
            IsPlain-if (d == 4) (plain "4" refl) (
              IsPlain-if (d == 5) (plain "5" refl) (
                IsPlain-if (d == 6) (plain "6" refl) (
                  IsPlain-if (d == 7) (plain "7" refl)
                    (IsPlain-if (d == 8) (plain "8" refl) (plain "9" refl)))))))))

  hex_digit-IsPlain : IsPlain (hex_digit d)
  unfolding hex_digit is_hostile is_control is_format
  hex_digit-IsPlain = IsPlain-if (ltb d 10) digit-IsPlain (
      IsPlain-if (d == 10) (plain "a" refl) (
        IsPlain-if (d == 11) (plain "b" refl) (
          IsPlain-if (d == 12) (plain "c" refl) (
            IsPlain-if (d == 13) (plain "d" refl)
              (IsPlain-if (d == 14) (plain "e" refl) (plain "f" refl))))))

hex2-IsPlain : (r : ℕ) → IsPlain (hex2 r)
unfolding hex2
hex2-IsPlain r = IsPlain-append (hex_digit-IsPlain (r / 16 % 16)) (hex_digit-IsPlain (r % 16))

hex4-IsPlain : (r : ℕ) → IsPlain (hex4 r)
unfolding hex4
hex4-IsPlain r =
    IsPlain-append
      (IsPlain-if (ltb r 0x10000) (plain "" refl) (
        IsPlain-if (ltb r 0x100000) (hex_digit-IsPlain (r / 0x10000 % 16))
          (hex2-IsPlain (r / 0x10000))))
      (IsPlain-append (hex2-IsPlain (r / 0x100)) (hex2-IsPlain r))

escape_rune-IsPlain : (r : ℕ) → IsPlain (escape_rune r)
unfolding escape_rune is_hostile is_control is_format
escape_rune-IsPlain r =
    IsPlain-if (ltb r 0x80) (IsPlain-append (plain "\\x" refl) (hex2-IsPlain r))
      (IsPlain-append (plain "\\u" refl) (hex4-IsPlain r))

escape_runes-IsPlain : (s : String) → IsPlain (escape_runes s)
unfolding escape_runes
escape_runes-IsPlain String.[] = plain "" refl
escape_runes-IsPlain (String.◌∷◌ c s) = elim (Bool-cases (is_hostile (code c))) [
  | inl e ↦ rw e (IsPlain-append (escape_rune-IsPlain (code c)) (escape_runes-IsPlain s))
  | inr e ↦
      rw e (
        plain (String.◌∷◌ c (escape_runes s))
          (ground (arith, e, (escape_runes-IsPlain s).harmless)))
]

-- No text that went through escapeControl has a control or format character or a line or paragraph
-- separator in it, whatever the server sent; and a text without one is shown as it is.
pub escape_control-plain :
    (s : String)
    → (any_char is_hostile (escape_control s) ≡ false)
      × (any_char is_hostile s ≡ false → escape_control s ≡ s)
unfolding escape_control
escape_control-plain s = ground (arith, (escape_runes-IsPlain s).harmless)
