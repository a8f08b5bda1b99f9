-- ===== src/Scenario/Sorting/Orders.antt =====
-- Consistent orders, and how one is made of several keys.
use kbdiag.Prelude.{Bool, true, false, String, ◌||◌, ◌≡◌, refl, arith, if◌then◌else◌}
use kbdiag.Scenario.Sorting.{text_lt}

-- An order by which to sort the elements that pass a test: never both ways, and what is not after
-- is transitive.
pub record IsOrder {ℓ} {A : Type ℓ} (p : A → Bool) (less : A → A → Bool) : Type ℓ where
  pub asym : (a b : A) → p a ≡ true → p b ≡ true → less a b ≡ true → less b a ≡ false
  pub not_trans :
      (a b c : A)
      → p a ≡ true
      → p b ≡ true
      → p c ≡ true
      → less a b ≡ false
      → less b c ≡ false
      → less a c ≡ false

abbrev pub always {ℓ} : {A : Type ℓ} → A → Bool
always a = true

module _ {ℓ} {A : Type ℓ} (first second : A → A → Bool) where
  -- By the first order, and by the second where the first does not tell.
  abbrev pub lexicographic : A → A → Bool
  lexicographic a b = if first a b || first b a then first a b else second a b

  pub lexicographic-IsOrder :
      (p : A → Bool) → IsOrder p first → IsOrder p second → IsOrder p lexicographic
  lexicographic-IsOrder p f s = record {
    asym = λ a b x y h. ground (arith, h, f.asym a b x y, f.asym b a y x, s.asym a b x y);
    not_trans = λ a b c x y z h k. ground (
      arith,
      h,
      k,
      f.asym a b x y,
      f.asym b a y x,
      f.asym b c y z,
      f.asym c b z y,
      f.asym a c x z,
      f.asym c a z x,
      f.not_trans a b c x y z,
      f.not_trans c b a z y x,
      f.not_trans b c a y z x,
      f.not_trans a c b x z y,
      f.not_trans b a c y x z,
      f.not_trans c a b z x y,
      s.not_trans a b c x y z,
    );
  }

pub text_lt-asym : (s t : String) → text_lt s t ≡ true → text_lt t s ≡ false
unfolding text_lt
text_lt-asym String.[] String.[] h = refl
text_lt-asym String.[] (String.◌∷◌ d t) h = refl
text_lt-asym (String.◌∷◌ c s) String.[] h = ground (arith, h)
text_lt-asym (String.◌∷◌ c s) (String.◌∷◌ d t) h = ground (arith, h, text_lt-asym s t)

pub text_lt-not_trans :
    (s t w : String) → text_lt s t ≡ false → text_lt t w ≡ false → text_lt s w ≡ false
unfolding text_lt
text_lt-not_trans String.[] String.[] w h k = k
text_lt-not_trans String.[] (String.◌∷◌ d t) w h k = ground (arith, h)
text_lt-not_trans (String.◌∷◌ c s) String.[] String.[] h k = refl
text_lt-not_trans (String.◌∷◌ c s) String.[] (String.◌∷◌ e w) h k = ground (arith, k)
text_lt-not_trans (String.◌∷◌ c s) (String.◌∷◌ d t) String.[] h k = refl
text_lt-not_trans (String.◌∷◌ c s) (String.◌∷◌ d t) (String.◌∷◌ e w) h k =
    ground (arith, h, k, text_lt-not_trans s t w)

pub text_lt-IsOrder : IsOrder always text_lt
text_lt-IsOrder = record {
  asym = λ s t x y. text_lt-asym s t;
  not_trans = λ s t w x y z. text_lt-not_trans s t w;
}
