-- ===== src/Units.antt =====
-- internal/units/units.go
pub mod Laws
use kbdiag.Prelude.{
  ℕ, ◌/◌, ◌%◌, ◌==◌, ℤ, pos, pos_part, String, true, false, List, [], ◌∷◌, concat, show_ℕ,
  if◌then◌else◌,
}
use kbdiag.Facts.Base.{Floats}

-- The loop of Bytes: the unit in use, the larger ones, and the number in that unit.
unfoldable pub bytes_in : {F : Type 0} ⦃fl : Floats F⦄ → String → List String → F → String
bytes_in ⦃fl⦄ unit [] b = concat (fl.fixed0 (fl.round b) ∷ " " ∷ unit ∷ [])
bytes_in ⦃fl⦄ unit (larger ∷ units) b = elim (fl.le (fl.of_int (pos 10240)) (fl.abs (fl.round b))) [
  | true ↦ bytes_in larger units (fl.div b (fl.of_int (pos 1024)))
  | false ↦ concat (fl.fixed0 (fl.round b) ∷ " " ∷ unit ∷ [])
]

-- Bytes
unfoldable pub bytes : {F : Type 0} ⦃fl : Floats F⦄ → F → String
unfolding bytes_in
bytes b = bytes_in "bytes" ("kB" ∷ "MB" ∷ "GB" ∷ "TB" ∷ "PB" ∷ []) b

-- parts of Duration: days, hours, minutes and seconds of n seconds.
unfoldable pub parts : ℕ → List (ℕ × String)
parts n = (n / 86400, "d") ∷ (n % 86400 / 3600, "h") ∷ (n % 3600 / 60, "m") ∷ (n % 60, "s") ∷ []

-- The loop of Duration: zero parts but the last are passed over, and the first other one is shown
-- with the part behind it.
unfoldable pub two_largest : List (ℕ × String) → List (ℕ × String)
two_largest [] = []
two_largest (p ∷ []) = p ∷ []
two_largest (p ∷ q ∷ ps) = let rest = two_largest (q ∷ ps) in if p.0 == 0 then rest else p ∷ q ∷ []

show_parts : List (ℕ × String) → String
show_parts [] = "0s"
show_parts (p ∷ []) = concat (show_ℕ p.0 ∷ p.1 ∷ [])
show_parts (p ∷ q ∷ ps) = concat (show_ℕ p.0 ∷ p.1 ∷ " " ∷ show_ℕ q.0 ∷ q.1 ∷ [])

-- Duration of whole seconds; negative ones count as 0.
unfoldable pub duration_s : ℤ → String
unfolding show_parts
duration_s z = show_parts (two_largest (parts (pos_part z)))

-- Duration
unfoldable pub duration : {F : Type 0} ⦃fl : Floats F⦄ → F → String
unfolding duration_s
duration ⦃fl⦄ s = duration_s (fl.to_int (fl.round s))
