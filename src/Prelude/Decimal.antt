-- ===== src/Prelude/Decimal.antt =====
-- Reading decimal digits back: what `show_ℕ` writes.
use Prim.Native.Char.{code}
use Prim.Native.String.{String, ◌++◌}
use Prim.Native.Nat.{ℕ, zero, suc, ◌+◌, ◌*◌, ◌-◌, ◌/◌, ◌%◌, ◌<◌}
use mathlib.Core.Path.{◌≡◌, refl, ap}
use mathlib.Core.Bool.{◌&&◌}
use mathlib.Core.Option.{Option, none, some}
use mathlib.Core.Logic.{inl, inr}
use native.Mathlib.Omega.{arith}
use text.Mathlib.TextLemmas.{cons-append, nil-append}
use kbdiag.Prelude.Tests.{ltb, leb, if◌then◌else◌, Bool-cases}
use kbdiag.Prelude.Text.{digit, decimal, show_ℕ}

-- The digits of a text, read from the left onto a number.
unfoldable pub read_digits : ℕ → String → Option ℕ
read_digits n String.[] = some n
read_digits n (String.◌∷◌ c s) =
    let rest = read_digits (n * 10 + (code c - b'0')) s in
    if leb b'0' (code c) && leb (code c) b'9' then rest else none

abbrev pub then_read : Option ℕ → String → Option ℕ
then_read none s = none
then_read (some n) s = read_digits n s

pub read_digits-append :
    (n : ℕ) (s t : String) → read_digits n (s ++ t) ≡ then_read (read_digits n s) t
unfolding read_digits
read_digits-append n String.[] t = rw nil-append
read_digits-append n (String.◌∷◌ c s) t =
    rw cons-append (ground (arith, read_digits-append (n * 10 + (code c - b'0')) s t))

read_digits-digit : (n d : ℕ) → d < 10 → read_digits n (digit d) ≡ some (n * 10 + d)
unfolding read_digits digit
read_digits-digit n zero h = refl
read_digits-digit n (suc zero) h = refl
read_digits-digit n (suc (suc zero)) h = refl
read_digits-digit n (suc (suc (suc zero))) h = refl
read_digits-digit n (suc (suc (suc (suc zero)))) h = refl
read_digits-digit n (suc (suc (suc (suc (suc zero))))) h = refl
read_digits-digit n (suc (suc (suc (suc (suc (suc zero)))))) h = refl
read_digits-digit n (suc (suc (suc (suc (suc (suc (suc zero))))))) h = refl
read_digits-digit n (suc (suc (suc (suc (suc (suc (suc (suc zero)))))))) h = refl
read_digits-digit n (suc (suc (suc (suc (suc (suc (suc (suc (suc zero))))))))) h = refl
read_digits-digit n (suc (suc (suc (suc (suc (suc (suc (suc (suc (suc d)))))))))) h =
    absurd (omega arith)

read_digits-decimal : (f n : ℕ) → n < f → read_digits 0 (decimal f n) ≡ some n
unfolding decimal
read_digits-decimal zero n h = elim h [ ]
read_digits-decimal (suc f) n h = elim (Bool-cases (ltb n 10)) [
  | inl small ↦ rw small (rw (read_digits-digit 0 n (ground arith)) (ap some (omega arith)))
  | inr large ↦ rw large (
      rw (read_digits-append 0 (decimal f (n / 10)) (digit (n % 10))) (
        rw (read_digits-decimal f (n / 10) (ground arith))
          (rw (read_digits-digit (n / 10) (n % 10) (omega arith)) (ap some (omega arith)))))
]

pub read_digits-show_ℕ : (n : ℕ) → read_digits 0 (show_ℕ n) ≡ some n
unfolding show_ℕ
read_digits-show_ℕ n = read_digits-decimal (suc n) n (omega arith)
