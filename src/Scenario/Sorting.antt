-- ===== src/Scenario/Sorting.antt =====
-- sort.SliceStable, and the orders that the commands sort by. The result of a stable sort by an
-- order that is consistent does not depend on the algorithm: here it is insertion.
pub mod Laws
pub mod Orders
use Prim.Native.Char.{code}
use kbdiag.Prelude.{
  ℤ, ltb, ltb_ℤ, eqb_ℤ, ◌==◌, Bool, true, false, String, Option, none, some, List, [], ◌∷◌, ◌||◌,
  not, if◌then◌else◌,
}

module _ {ℓ} {A : Type ℓ} where
  abbrev pub insert : (A → A → Bool) → A → List A → List A
  insert less x [] = x ∷ []
  insert less x (y ∷ ys) = let rest = insert less x ys in if less y x then y ∷ rest else x ∷ y ∷ ys

  -- sort.SliceStable
  unfoldable pub stable_sort : (A → A → Bool) → List A → List A
  stable_sort less [] = []
  stable_sort less (x ∷ xs) = insert less x (stable_sort less xs)

-- a < b of two strings: by bytes, which for UTF-8 is by code points.
unfoldable pub text_lt : String → String → Bool
text_lt String.[] String.[] = false
text_lt String.[] (String.◌∷◌ d t) = true
text_lt (String.◌∷◌ c s) String.[] = false
text_lt (String.◌∷◌ c s) (String.◌∷◌ d t) =
    let rest = text_lt s t in
    if ltb (code c) (code d) then true else if code c == code d then rest else false
