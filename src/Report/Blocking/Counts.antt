-- ===== src/Report/Blocking/Counts.antt =====
-- internal/report/locks.go: how many sessions each blocker blocks.
use kbdiag.Prelude.{
  ℕ, ◌+◌, ℤ, eqb_ℤ, Bool, true, false, List, [], ◌∷◌, count, ◌≡◌, refl, arith, if◌then◌else◌,
}
use kbdiag.Facts.Lock.{Lock, contains, blockers}
use kbdiag.Facts.Lock.Blockers.{is_distinct, blockers-members}
use kbdiag.Report.Blocking.{
  LockObject, object_of, Blocker, add_blocker, add_blockers, blockers_from,
}

-- blocks[b], 0 where it is not there
abbrev pub blocks_of : ℤ → List Blocker → ℕ
blocks_of b [] = 0
blocks_of b (x ∷ xs) = let rest = blocks_of b xs in if eqb_ℤ x.pid b then x.blocks else rest

abbrev once : Bool → ℕ
once v = if v then 1 else 0

eqb_trans : (x b c : ℤ) → eqb_ℤ x c ≡ true → eqb_ℤ x b ≡ eqb_ℤ c b
eqb_trans x b c h = ground (arith, h)

blocks_of-add_blocker :
    (o : LockObject) (b c : ℤ) (xs : List Blocker)
    → blocks_of b (add_blocker o c xs) ≡ once (eqb_ℤ c b) + blocks_of b xs
unfolding add_blocker
blocks_of-add_blocker o b c [] = ground arith
blocks_of-add_blocker o b c (x ∷ xs) =
    ground (arith, blocks_of-add_blocker o b c xs, eqb_trans x.pid b c)

contains-other :
    (b c : ℤ) (bs : List ℤ) → contains bs c ≡ false → eqb_ℤ c b ≡ true → contains bs b ≡ false
contains-other b c [] h e = refl
contains-other b c (x ∷ bs) h e = ground (arith, h, e, contains-other b c bs)

blocks_of-add_blockers :
    (o : LockObject) (b : ℤ) (cs : List ℤ) (xs : List Blocker)
    → is_distinct cs ≡ true
    → blocks_of b (add_blockers o cs xs) ≡ once (contains cs b) + blocks_of b xs
unfolding add_blockers
blocks_of-add_blockers o b [] xs d = ground arith
blocks_of-add_blockers o b (c ∷ cs) xs d = ground (
  arith,
  d,
  blocks_of-add_blockers o b cs (add_blocker o c xs),
  blocks_of-add_blocker o b c xs,
  contains-other b c cs,
)

blocks_of-from :
    {F : Type 0} (b : ℤ) (xs : List Blocker) (ls : List (Lock F))
    → blocks_of b (blockers_from xs ls) ≡ count (λ l. contains (blockers l) b) ls + blocks_of b xs
unfolding blockers_from
blocks_of-from b xs [] = ground arith
blocks_of-from b xs (l ∷ ls) = ground (
  arith,
  blocks_of-from b (add_blockers (object_of l) (blockers l) xs) ls,
  blocks_of-add_blockers (object_of l) b (blockers l) xs (blockers-members l).0,
)

count-cong {ℓ} :
    {A : Type ℓ} (p q : A → Bool) (xs : List A) → ((x : A) → p x ≡ q x) → count p xs ≡ count q xs
count-cong p q [] e = refl
count-cong p q (x ∷ xs) e = ground (arith, e x, count-cong p q xs e)

-- The number in the blocks column of `kbdiag locks` is, for every pid, how many of the waiting rows
-- name it among those that block them, a row that names it several times counted once.
pub blockers_from-blocks :
    {F : Type 0} (b : ℤ) (waiting : List (Lock F))
    → blocks_of b (blockers_from [] waiting) ≡ count (λ l. contains l.blocked_by b) waiting
blockers_from-blocks b waiting = ground (
  arith,
  blocks_of-from b [] waiting,
  count-cong (λ l. contains (blockers l) b) (λ l. contains l.blocked_by b) waiting
      (λ l. (blockers-members l).1 b),
)
