-- ===== src/Units/Laws.antt =====
-- internal/units/units.go: how far the text of a duration is from its seconds.
use kbdiag.Prelude.{ℕ, ◌+◌, ◌*◌, ◌≤◌, ◌<◌, String, List, [], ◌∷◌, str_eq, arith, if◌then◌else◌}
use kbdiag.Units.{parts, two_largest}

-- The seconds of a unit of time.
abbrev pub unit_seconds : String → ℕ
unit_seconds name =
    if str_eq name "d"
    then 86400
    else if str_eq name "h"
    then 3600
    else if str_eq name "m"
    then 60
    else 1

-- The seconds that the shown parts stand for.
abbrev pub seconds : List (ℕ × String) → ℕ
seconds [] = 0
seconds (p ∷ ps) = p.0 * unit_seconds p.1 + seconds ps

-- The unit of the last shown part.
abbrev pub last_unit : List (ℕ × String) → ℕ
last_unit [] = 1
last_unit (p ∷ []) = unit_seconds p.1
last_unit (p ∷ q ∷ ps) = last_unit (q ∷ ps)

-- What Duration shows of n seconds stands for at most n, and is short of n by less than one unit
-- of the last shown part.
pub two_largest-parts :
    (n : ℕ)
    → (seconds (two_largest (parts n)) ≤ n)
      × (n < seconds (two_largest (parts n)) + last_unit (two_largest (parts n)))
unfolding two_largest parts
two_largest-parts n = ground arith
