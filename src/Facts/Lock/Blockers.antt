-- ===== src/Facts/Lock/Blockers.antt =====
-- internal/facts/lock.go: the members of Blockers.
use kbdiag.Prelude.{
  ℤ, Bool, true, false, List, [], ◌∷◌, ◌++◌, ◌&&◌, ◌||◌, not, eqb_ℤ, ◌≡◌, refl, arith,
}
use kbdiag.Facts.Lock.{Lock, contains, keep_new, blockers}

contains-append :
    (xs ys : List ℤ) (b : ℤ) → contains (xs ++ ys) b ≡ (contains xs b || contains ys b)
contains-append [] ys b = refl
contains-append (x ∷ xs) ys b = ground (arith, contains-append xs ys b)

-- No pid is listed twice.
abbrev pub is_distinct : List ℤ → Bool
is_distinct [] = true
is_distinct (x ∷ xs) = not (contains xs x) && is_distinct xs

distinct-append_one :
    (xs : List ℤ) (b : ℤ)
    → contains xs b ≡ false
    → is_distinct xs ≡ true
    → is_distinct (xs ++ b ∷ []) ≡ true
distinct-append_one [] b h d = refl
distinct-append_one (x ∷ xs) b h d =
    ground (arith, distinct-append_one xs b, contains-append xs (b ∷ []) x)

eqb_cong : (x b c : ℤ) → eqb_ℤ x c ≡ true → eqb_ℤ c b ≡ eqb_ℤ x b
eqb_cong x b c h = ground arith

contains-same : (xs : List ℤ) (b c : ℤ) → eqb_ℤ c b ≡ true → contains xs b ≡ contains xs c
contains-same [] b c h = refl
contains-same (x ∷ xs) b c h = ground (arith, contains-same xs b c h)

keep_new-members :
    (xs out : List ℤ) (b : ℤ) → contains (keep_new xs out) b ≡ (contains out b || contains xs b)
unfolding keep_new
keep_new-members [] out b = ground arith
keep_new-members (x ∷ xs) out b = ground (
  arith,
  keep_new-members xs out b,
  keep_new-members xs (out ++ x ∷ []) b,
  contains-append out (x ∷ []) b,
  contains-same out b x,
)

keep_new-distinct :
    (xs out : List ℤ) → is_distinct out ≡ true → is_distinct (keep_new xs out) ≡ true
unfolding keep_new
keep_new-distinct [] out d = d
keep_new-distinct (x ∷ xs) out d = ground (
  arith,
  keep_new-distinct xs out d,
  keep_new-distinct xs (out ++ x ∷ []),
  distinct-append_one out x,
)

-- Blockers lists no pid twice, and lists exactly the pids of blocked_by.
pub blockers-members :
    {F : Type 0} (l : Lock F)
    → (is_distinct (blockers l) ≡ true)
      × ((b : ℤ) → contains (blockers l) b ≡ contains l.blocked_by b)
unfolding blockers
blockers-members l =
    (keep_new-distinct l.blocked_by [] refl, λ b. keep_new-members l.blocked_by [] b)
