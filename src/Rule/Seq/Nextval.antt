-- ===== src/Rule/Seq/Nextval.antt =====
-- internal/rule/seq.go: SeqLeft against the server's nextval.
use Prim.Native.Nat.{◌*◌}
use kbdiag.Prelude.{
  ℕ, zero, suc, ◌+◌, ◌*◌, ◌/◌, ◌≤◌, ◌<◌, ℤ, pos, pos_part, neg_part, ◌+ℤ◌, ltb_ℤ, leb_ℤ, eqb_ℤ,
  true, false, Option, none, some, is_some, ◌≡◌, ◌↔◌, ◌⊎◌, refl, arith, if◌then◌else◌, +ℤ_parts,
  -ℤ_parts, inl, inr,
}
use kbdiag.Facts.Base.{Floats}
use kbdiag.Facts.Seq.{Sequence}
use kbdiag.Rule.Seq.{room, values_left, seq_left}

-- nextval of a sequence that does not cycle: the next value, unless it passes the limit in the
-- sequence's direction.
unfoldable pub nextval : Sequence → ℤ → Option ℤ
nextval s v =
    let w = v +ℤ s.increment_by in
    if ltb_ℤ (pos 0) s.increment_by
    then (if leb_ℤ w s.max_value then some w else none)
    else (if leb_ℤ s.min_value w then some w else none)

-- k calls of nextval, one after another.
unfoldable pub calls : Sequence → ℕ → ℤ → Option ℤ
calls s zero v = some v
calls s (suc k) v = elim (nextval s v) [ none ↦ none | some w ↦ calls s k w ]

abbrev pub step : Sequence → ℕ
step s = pos_part s.increment_by + neg_part s.increment_by

-- How many units are left to the limit.
abbrev pub left_room : Sequence → ℤ → ℕ
left_room s v = pos_part (room s v)

pub nextval_cases :
    (s : Sequence) (v : ℤ)
    → eqb_ℤ s.increment_by (pos 0) ≡ false
    → ((step s ≤ left_room s v)
        × (nextval s v ≡ some (v +ℤ s.increment_by))
        × (left_room s (v +ℤ s.increment_by) + step s ≡ left_room s v))
      ⊎ ((left_room s v < step s) × (nextval s v ≡ none))
unfolding nextval room
nextval_cases s v h = ground (
  arith,
  +ℤ_parts v s.increment_by,
  -ℤ_parts s.max_value v,
  -ℤ_parts v s.min_value,
  -ℤ_parts s.max_value (v +ℤ s.increment_by),
  -ℤ_parts (v +ℤ s.increment_by) s.min_value,
)

calls-some_iff :
    (s : Sequence) (k : ℕ) (v : ℤ)
    → eqb_ℤ s.increment_by (pos 0) ≡ false
    → (is_some (calls s k v) ≡ true) ↔ (k * step s ≤ left_room s v)
unfolding calls
calls-some_iff s zero v h = ((λ _. omega arith), (λ _. refl))
calls-some_iff s (suc k) v h = elim (nextval_cases s v h) [
  | inl (fits, next, less) ↦
      let (there, back) = calls-some_iff s k (v +ℤ s.increment_by) h in
      rw (next, calls)
        (
          (λ some_k. grind (arith, there some_k, less)),
          (λ enough. back (grind (arith, enough, less))),
        )
  | inr (short, stop) ↦
      rw (stop, calls) ((λ no_value. cc), (λ enough. absurd (grind (arith, enough, short))))
]

pub mul-le_iff-le-div : (k d r : ℕ) → 0 < d → (k * d ≤ r) ↔ (k ≤ r / d)
mul-le_iff-le-div k d r h = ((λ p. grind (arith, p)), (λ p. grind (arith, p)))

module _ {F : Type 0} ⦃fl : Floats F⦄ where
  -- SeqLeft of a sequence that has been called is how many more values nextval hands out: k more
  -- calls succeed exactly when k is at most that, whatever the limits and the direction.
  pub seq_left-calls :
      (s : Sequence) (last : ℤ) (left : ℕ) (used : F)
      → s.last_value ≡ some last
      → seq_left ⦃fl = fl⦄ s ≡ some (left, used)
      → (k : ℕ) → (is_some (calls s k last) ≡ true) ↔ (k ≤ left)
  unfolding seq_left
  seq_left-calls s last left used called counted k =
      let steps : eqb_ℤ s.increment_by (pos 0) ≡ false = ground arith in
      let exact : pos_part (room s last) / step s ≡ left = unfold values_left in ground arith in
      let (there, back) = calls-some_iff s k last steps in
      let (into, out) = mul-le_iff-le-div k (step s) (left_room s last) (ground arith) in
      ((λ c. omega (arith, into (there c), exact)), (λ c. back (out (omega (arith, exact)))))
