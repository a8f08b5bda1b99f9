-- ===== src/Cli/Arguments.antt =====
-- cmd/kbdiag/main.go: the pid of `kbdiag session`.
use Prim.Native.Char.{code}
use kbdiag.Prelude.{
  ◌≡◌, ◌<◌, arith, show_ℕ, ℕ, ◌==◌, ltb, String, Option, none, some, ◌&&◌, if◌then◌else◌,
}
use kbdiag.Prelude.Decimal.{read_digits, read_digits-show_ℕ}

-- The digits of strconv.ParseInt(s, 10, 32): at least one.
abbrev pub digits_of : String → Option ℕ
digits_of String.[] = none
digits_of (String.◌∷◌ c s) = read_digits 0 (String.◌∷◌ c s)

-- strconv.ParseInt(s, 10, 32), and pid <= 0 is an error; `none` is an error. A number with a minus
-- sign is not positive, or is an error.
abbrev pub positive_int32 : Option ℕ → Option ℕ
positive_int32 none = none
positive_int32 (some n) = if ltb 0 n && ltb n 2147483648 then some n else none

unfoldable pub parse_pid : String → Option ℕ
parse_pid String.[] = none
parse_pid (String.◌∷◌ c s) =
    if code c == b'-'
    then none
    else positive_int32 (if code c == b'+' then digits_of s else digits_of (String.◌∷◌ c s))

parse_pid-digits :
    (t : String) (n : ℕ) → read_digits 0 t ≡ some n → 0 < n → n < 2147483648 → parse_pid t ≡ some n
unfolding parse_pid read_digits
parse_pid-digits String.[] n e low high = ground (arith, e, low)
parse_pid-digits (String.◌∷◌ c s) n e low high = ground (arith, e, low, high)

-- The pid that kbdiag prints is read back: every pid from 1 to 2147483647, written in decimal, is the
-- argument of `kbdiag session` that stands for it.
pub parse_pid-show : (n : ℕ) → 0 < n → n < 2147483648 → parse_pid (show_ℕ n) ≡ some n
parse_pid-show n low high = parse_pid-digits (show_ℕ n) n (read_digits-show_ℕ n) low high

-- Whatever the argument, a pid that is accepted is a positive number of 32 bits with a sign.
pub parse_pid-bounds : (t : String) (n : ℕ) → parse_pid t ≡ some n → (0 < n) × (n < 2147483648)
unfolding parse_pid
parse_pid-bounds String.[] n e = ground (arith, e)
parse_pid-bounds (String.◌∷◌ c s) n e = ground (arith, e)
