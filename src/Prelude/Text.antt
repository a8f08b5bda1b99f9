-- ===== src/Prelude/Text.antt =====
-- Go's formatting of texts: decimals, concatenation, strings.Join.
use Prim.Native.Nat.{ℕ, zero, suc, ◌/◌, ◌%◌}
use Prim.Native.String.{String, ◌++◌}
use mathlib.Core.List.{List, [], ◌∷◌}
use kbdiag.Prelude.Tests.{ltb, ◌==◌, if◌then◌else◌}
use kbdiag.Prelude.Int.{ℤ, pos, negsuc}

-- fmt.Sprintf with plain %s verbs: the pieces one after another.
unfoldable pub concat : List String → String
concat [] = ""
concat (s ∷ ss) = s ++ concat ss

-- strings.Join
unfoldable pub join : String → List String → String
join sep [] = ""
join sep (s ∷ []) = s
join sep (s ∷ t ∷ ss) = s ++ (sep ++ join sep (t ∷ ss))

unfoldable pub digit : ℕ → String
digit d =
    if d == 0
    then "0"
    else if d == 1
    then "1"
    else if d == 2
    then "2"
    else if d == 3
    then "3"
    else if d == 4
    then "4"
    else if d == 5
    then "5"
    else if d == 6
    then "6"
    else if d == 7
    then "7"
    else if d == 8
    then "8"
    else "9"

-- One round for each digit; a number has no more digits than its value plus one.
unfoldable pub decimal : ℕ → ℕ → String
decimal zero n = ""
decimal (suc f) n =
    let rest = decimal f (n / 10) ++ digit (n % 10) in if ltb n 10 then digit n else rest

unfoldable pub show_ℕ : ℕ → String
unfolding decimal digit
show_ℕ n = decimal (suc n) n

-- %d, strconv.Itoa
unfoldable pub show : ℤ → String
unfolding show_ℕ
show (pos n) = show_ℕ n
show (negsuc n) = "-" ++ show_ℕ (suc n)
