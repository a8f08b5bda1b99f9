-- ===== src/Scenario/Sorting/Laws.antt =====
-- A stable sort only rearranges, and leaves no element before one that goes first.
use kbdiag.Prelude.{
  ℕ, Bool, true, false, List, [], ◌∷◌, ◌++◌, ◌||◌, ◌≡◌, refl, inl, inr, Bool-cases, any, take, drop,
  take-append-drop, arith,
}
use mathlib.Core.Bool.{Bool-set}
use mathlib.Core.List.{
  Mem, Perm, Pairwise, Pairwise-singleton, Pairwise-append, forall_mem-cons, mem-append_left,
  mem-append_right,
}
use mathlib.Core.List.Perm
use kbdiag.Scenario.Sorting.{insert, stable_sort}
use kbdiag.Scenario.Sorting.Orders.{IsOrder}

module _ {ℓ} {A : Type ℓ} (less : A → A → Bool) where
  -- No later element goes before an earlier one.
  abbrev pub IsSorted : List A → Type ℓ
  IsSorted = Pairwise (λ x y. less y x ≡ false)

  insert-perm : (x : A) (l : List A) → Perm (insert less x l) (x ∷ l)
  insert-perm x [] = Perm.rfl
  insert-perm x (y ∷ ys) = elim (Bool-cases (less y x)) [
    | inl e ↦ rw e (Perm.trans (Perm.cons y (insert-perm x ys)) (Perm.swap x y ys))
    | inr e ↦ rw e Perm.rfl
  ]

  pub stable_sort-perm : (l : List A) → Perm (stable_sort less l) l
  unfolding stable_sort
  stable_sort-perm [] = Perm.rfl
  stable_sort-perm (x ∷ xs) =
      Perm.trans (insert-perm x (stable_sort less xs)) (Perm.cons x (stable_sort-perm xs))

  -- What the head of a sorted list is to the rest.
  abbrev pub IsFirst : A → List A → Type ℓ
  IsFirst a l = (x : A) → Mem x l → less x a ≡ false

  IsFirst-cons : {a b : A} {l : List A} → less b a ≡ false → IsFirst a l → IsFirst a (b ∷ l)
  IsFirst-cons {a} h k = (forall_mem-cons (λ x. Bool-set (less x a) false)).1 (h, k)

  IsFirst-perm : {a : A} {l r : List A} → Perm l r → IsFirst a r → IsFirst a l
  IsFirst-perm p h x m = h x ((Perm.mem_iff p).0 m)

  module _ (p : A → Bool) (o : IsOrder p less) where
    -- Every element passes the test.
    abbrev pub AllPass : List A → Type ℓ
    AllPass l = (x : A) → Mem x l → p x ≡ true

    AllPass-cons : (x : A) (l : List A) → AllPass (x ∷ l) → (p x ≡ true) × AllPass l
    AllPass-cons x l h = (forall_mem-cons (λ y. Bool-set (p y) true)).0 h

    AllPass-perm : {l r : List A} → Perm l r → AllPass r → AllPass l
    AllPass-perm e h x m = h x ((Perm.mem_iff e).0 m)

    insert-IsSorted :
        (x : A) {l : List A} → p x ≡ true → AllPass l → IsSorted l → IsSorted (insert less x l)
    insert-IsSorted x px h Pairwise.nil = Pairwise-singleton _ x
    insert-IsSorted x px h (Pairwise.cons {a = y} {l = ys} below s) =
        let (py, pys) = AllPass-cons y ys h in
        elim (Bool-cases (less y x)) [
          | inl e ↦ rw e (
              Pairwise.cons
                (IsFirst-perm (insert-perm x ys) (IsFirst-cons (o.asym y x py px e) below))
                (insert-IsSorted x px pys s))
          | inr e ↦ rw e (
              Pairwise.cons
                (IsFirst-cons e (λ z m. o.not_trans z y x (pys z m) py px (below z m) e))
                (Pairwise.cons below s))
        ]

    pub stable_sort-IsSorted : (l : List A) → AllPass l → IsSorted (stable_sort less l)
    unfolding stable_sort
    stable_sort-IsSorted [] h = Pairwise.nil
    stable_sort-IsSorted (x ∷ xs) h =
        let (px, pxs) = AllPass-cons x xs h in
        insert-IsSorted x px (AllPass-perm (stable_sort-perm xs) pxs) (stable_sort-IsSorted xs pxs)

    -- Cutting a sorted list keeps what goes first: nothing that is cut off goes before what is kept.
    -- What is cut off and what is kept are elements of the list.
    pub stable_sort-cut :
        (n : ℕ) (l : List A) (x y : A)
        → AllPass l
        → Mem x (take n (stable_sort less l))
        → Mem y (drop n (stable_sort less l))
        → (less y x ≡ false) × (p x ≡ true) × (p y ≡ true)
    stable_sort-cut n l x y h mx my = (
      ((Pairwise-append (λ a b. Bool-set (less b a) false)).0 whole).2 x mx y my,
      pass x (mem-append_left (drop n sorted) mx),
      pass y (mem-append_right (take n sorted) my),
    )
      where
        sorted : List A
        sorted = stable_sort less l

        whole : IsSorted (take n sorted ++ drop n sorted)
        whole = rw (take-append-drop n sorted) (stable_sort-IsSorted l h)

        pass : AllPass (take n sorted ++ drop n sorted)
        pass = rw (take-append-drop n sorted) (AllPass-perm (stable_sort-perm l) h)

module _ {ℓ} {A : Type ℓ} (less : A → A → Bool) (p : A → Bool) where
  any-insert : (x : A) (l : List A) → any p (insert less x l) ≡ (p x || any p l)
  any-insert x [] = refl
  any-insert x (y ∷ ys) = ground (arith, any-insert x ys)

  -- Whether some element passes a test does not depend on the order.
  pub any-stable_sort : (l : List A) → any p (stable_sort less l) ≡ any p l
  unfolding stable_sort
  any-stable_sort [] = refl
  any-stable_sort (x ∷ xs) = ground (arith, any-insert x (stable_sort less xs), any-stable_sort xs)
