-- ===== src/Rule/Names/Chars.antt =====
-- internal/rule/names.go: which characters quoting and concatenation bring into a text.
use Prim.Native.Char.{code}
use Prim.Native.String.{◌++◌}
use kbdiag.Prelude.{ℕ, ◌==◌, String, Bool, false, ◌||◌, ◌≡◌, refl, ap, arith, Bool-cases, inl, inr}
use text.Mathlib.TextLemmas.{cons-append, nil-append}
use kbdiag.Rule.Names.{any_char, replace_char, is_control, is_format, is_hostile}

pub any_char-append :
    (p : ℕ → Bool) (s t : String) → any_char p (s ++ t) ≡ (any_char p s || any_char p t)
any_char-append p String.[] t = ground (arith, nil-append t)
any_char-append p (String.◌∷◌ c s) t = rw (cons-append) ground (arith, any_char-append p s t)

-- Replacing one character leaves every other one in, and brings in those of the new text.
pub replace_char-keeps :
    (p : ℕ → Bool) (old : ℕ) (new s : String)
    → p old ≡ false
    → any_char p new ≡ false
    → any_char p (replace_char old new s) ≡ any_char p s
unfolding replace_char
replace_char-keeps p old new String.[] h k = refl
replace_char-keeps p old new (String.◌∷◌ c s) h k = elim (Bool-cases (code c == old)) [
  | inl same ↦
      let eq : code c ≡ old = ground (arith, same) in
      ground (
        arith,
        same,
        ap p eq,
        replace_char-keeps p old new s h k,
        any_char-append p new (replace_char old new s),
      )
  | inr other ↦ ground (arith, other, replace_char-keeps p old new s h k)
]

pub any_char-hostile :
    (s : String) → any_char is_hostile s ≡ (any_char is_control s || any_char is_format s)
unfolding is_hostile
any_char-hostile String.[] = refl
any_char-hostile (String.◌∷◌ c s) = ground (arith, any_char-hostile s)
