-- ===== src/Scenario/Locks/Laws.antt =====
-- internal/scenario/lock.go: which lock rows `kbdiag locks` shows.
use kbdiag.Prelude.{
  ℤ, Bool, List, [], ◌∷◌, ◌&&◌, ◌||◌, not, any, any-append, select, str_eq, ◌≡◌, refl, arith,
}
use kbdiag.Facts.Lock.{Lock, contains}
use kbdiag.Scenario.Locks.{
  LockedObject, same_object, objects_of, contested, holder, deref, shown_locks,
}

module _ {F : Type 0} where
  -- A waiting row that `x` stands in the way of: x's holder blocks it, and it wants the same
  -- relation (or none) with the same locktype.
  abbrev pub is_blocked_by : Lock F → Lock F → Bool
  is_blocked_by x w =
      not w.granted
      && contains w.blocked_by (holder x).pid
      && str_eq w.locktype x.locktype
      && str_eq (deref w.relation) (deref x.relation)

  -- What is shown: the waiting rows, and those that stand in the way of one.
  abbrev pub is_relevant : List (Lock F) → Lock F → Bool
  is_relevant rows x = not x.granted || any (is_blocked_by x) rows

  objects_of-same :
      (w : Lock F) (bs : List ℤ) (o : LockedObject)
      → any (λ p. same_object p o) (objects_of w bs) ≡ (
          contains bs o.pid && str_eq w.locktype o.locktype && str_eq (deref w.relation) o.relation)
  objects_of-same w [] o = refl
  objects_of-same w (b ∷ bs) o = ground (arith, objects_of-same w bs o)

  contested-same :
      (rows : List (Lock F)) (x : Lock F)
      → any (λ p. same_object p (holder x)) (contested rows) ≡ any (is_blocked_by x) rows
  unfolding contested
  contested-same [] x = refl
  contested-same (w ∷ rows) x = ground (
    arith,
    contested-same rows x,
    objects_of-same w w.blocked_by (holder x),
    any-append (λ p. same_object p (holder x)) (objects_of w w.blocked_by) (contested rows),
  )

  select-cong :
      (p q : Lock F → Bool) (rows : List (Lock F))
      → ((x : Lock F) → p x ≡ q x)
      → select p rows ≡ select q rows
  select-cong p q [] h = refl
  select-cong p q (x ∷ rows) h = ground (arith, h x, select-cong p q rows h)

  -- The rows that `kbdiag locks` shows are, in the server's order, those that wait and those
  -- whose holder blocks a waiting row on an object of the same locktype and relation name.
  pub shown_locks-relevant :
      (rows : List (Lock F)) → shown_locks rows ≡ select (is_relevant rows) rows
  unfolding shown_locks
  shown_locks-relevant rows =
      select-cong (λ x. not x.granted || any (λ o. same_object o (holder x)) (contested rows))
        (is_relevant rows) rows (λ x. ground (arith, contested-same rows x))
