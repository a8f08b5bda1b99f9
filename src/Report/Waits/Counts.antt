-- ===== src/Report/Waits/Counts.antt =====
-- internal/report/waits.go: the counts of the groups.
use kbdiag.Prelude.{
  ℤ, pos, eqb_ℤ, ◌-ℤ◌, ◌+ℤ◌, +ℤ_parts, -ℤ_parts, eq_of_parts, true, List, [], ◌∷◌, ◌++◌, ◌≡◌, refl,
  sym, ap, ◌∙◌, arith, length,
}
use kbdiag.Facts.Wait.{Wait}
use kbdiag.Report.Waits.{Tally, nothing_yet, foreground, add_busy, add_rest, add_group, tally_from}

-- The sessions of these groups.
unfoldable pub session_sum : List Wait → ℤ
session_sum [] = pos 0
session_sum (g ∷ gs) = g.sessions +ℤ session_sum gs

-- The sessions that the table shows for these groups.
unfoldable pub visible_sum : List Wait → ℤ
visible_sum [] = pos 0
visible_sum (g ∷ gs) = (g.sessions -ℤ g.masked) +ℤ visible_sum gs

abbrev pub total : Tally → ℤ
total t = t.busy +ℤ (t.idle +ℤ (t.background +ℤ (t.hidden +ℤ t.untracked)))

+ℤ_comm : (a b : ℤ) → a +ℤ b ≡ b +ℤ a
unfolding ◌+ℤ◌
+ℤ_comm a b = ground arith

+ℤ_assoc : (a b c : ℤ) → (a +ℤ b) +ℤ c ≡ a +ℤ (b +ℤ c)
+ℤ_assoc a b c =
    eq_of_parts _ _
      (ground (arith, +ℤ_parts a b, +ℤ_parts b c, +ℤ_parts (a +ℤ b) c, +ℤ_parts a (b +ℤ c)))

-- b + (a - b) = a
+ℤ_sub : (a b : ℤ) → b +ℤ (a -ℤ b) ≡ a
+ℤ_sub a b = eq_of_parts _ _ (ground (arith, -ℤ_parts a b, +ℤ_parts b (a -ℤ b)))

abbrev sum5 : ℤ → ℤ → ℤ → ℤ → ℤ → ℤ
sum5 b i g h u = b +ℤ (i +ℤ (g +ℤ (h +ℤ u)))

+ℤ_swap : (a s r : ℤ) → (a +ℤ r) +ℤ s ≡ (a +ℤ s) +ℤ r
+ℤ_swap a s r = +ℤ_assoc a r s ∙ ap (λ x. a +ℤ x) (+ℤ_comm r s) ∙ sym (+ℤ_assoc a s r)

+ℤ_under : (a x y r : ℤ) → x ≡ y +ℤ r → a +ℤ x ≡ (a +ℤ y) +ℤ r
+ℤ_under a x y r e = ap (λ z. a +ℤ z) e ∙ sym (+ℤ_assoc a y r)

module _ (b i g h u r : ℤ) where
  to_busy : sum5 (b +ℤ r) i g h u ≡ sum5 b i g h u +ℤ r
  to_busy = +ℤ_swap b _ r

  to_idle : sum5 b (i +ℤ r) g h u ≡ sum5 b i g h u +ℤ r
  to_idle = +ℤ_under b _ _ r (+ℤ_swap i _ r)

  to_background : sum5 b i (g +ℤ r) h u ≡ sum5 b i g h u +ℤ r
  to_background = +ℤ_under b _ _ r (+ℤ_under i _ _ r (+ℤ_swap g _ r))

  to_hidden : sum5 b i g (h +ℤ r) u ≡ sum5 b i g h u +ℤ r
  to_hidden = +ℤ_under b _ _ r (+ℤ_under i _ _ r (+ℤ_under g _ _ r (+ℤ_swap h _ r)))

  to_untracked : sum5 b i g h (u +ℤ r) ≡ sum5 b i g h u +ℤ r
  to_untracked = +ℤ_under b _ _ r (+ℤ_under i _ _ r (+ℤ_under g _ _ r (sym (+ℤ_assoc h u r))))

-- Nothing is added.
+ℤ_none : (a r : ℤ) → eqb_ℤ r (pos 0) ≡ true → a +ℤ r ≡ a
+ℤ_none a r e = eq_of_parts _ _ (ground (arith, e, +ℤ_parts a r))

-- a + n + (r - n) = a + r
split_rest : (a n r : ℤ) → (a +ℤ n) +ℤ (r -ℤ n) ≡ a +ℤ r
split_rest a n r = +ℤ_assoc a n (r -ℤ n) ∙ ap (λ x. a +ℤ x) (+ℤ_sub r n)

total-add_busy : (t : Tally) (g : Wait) (r : ℤ) → total (add_busy t g r) ≡ total t +ℤ r
unfolding add_busy
total-add_busy t g r =
    let n = pos (length g.background) in
    ground (
      arith,
      to_busy t.busy t.idle t.background t.hidden t.untracked r,
      to_background t.busy t.idle t.background t.hidden t.untracked n,
      to_busy t.busy t.idle (t.background +ℤ n) t.hidden t.untracked (r -ℤ n),
      split_rest (total t) n r,
      +ℤ_none (total t +ℤ n) (r -ℤ n),
    )

total-add_rest : (t : Tally) (g : Wait) (r : ℤ) → total (add_rest t g r) ≡ total t +ℤ r
unfolding add_rest
total-add_rest t g r = ground (
  arith,
  total-add_busy t g r,
  +ℤ_none (total t) r,
  to_idle t.busy t.idle t.background t.hidden t.untracked r,
  to_background t.busy t.idle t.background t.hidden t.untracked r,
  to_untracked t.busy t.idle t.background t.hidden t.untracked r,
)

total-add_group : (t : Tally) (g : Wait) → total (add_group t g) ≡ total t +ℤ g.sessions
unfolding add_group
total-add_group t g =
    total-add_rest (record t { hidden = t.hidden +ℤ g.masked }) g (g.sessions -ℤ g.masked)
    ∙ ap (λ x. x +ℤ (g.sessions -ℤ g.masked))
        (to_hidden t.busy t.idle t.background t.hidden t.untracked g.masked)
    ∙ split_rest (total t) g.masked g.sessions

total-tally_from :
    (t : Tally) (gs : List Wait) → total (tally_from t gs) ≡ total t +ℤ session_sum gs
unfolding tally_from session_sum
total-tally_from t [] = sym (+ℤ_none (total t) (pos 0) refl)
total-tally_from t (g ∷ gs) =
    total-tally_from (add_group t g) gs
    ∙ ap (λ x. x +ℤ session_sum gs) (total-add_group t g)
    ∙ +ℤ_assoc (total t) g.sessions (session_sum gs)

visible_sum-append :
    (gs : List Wait) (g : Wait)
    → visible_sum (gs ++ (g ∷ [])) ≡ visible_sum gs +ℤ (g.sessions -ℤ g.masked)
unfolding visible_sum
visible_sum-append [] g = +ℤ_comm (g.sessions -ℤ g.masked) (pos 0)
visible_sum-append (x ∷ gs) g = +ℤ_under _ _ _ _ (visible_sum-append gs g)

sub_swap : (a b c : ℤ) → (a -ℤ b) -ℤ c ≡ (a -ℤ c) -ℤ b
sub_swap a b c =
    eq_of_parts _ _
      (ground (arith, -ℤ_parts a b, -ℤ_parts a c, -ℤ_parts (a -ℤ b) c, -ℤ_parts (a -ℤ c) b))

-- The count of the first line is the sum of the column under it.
abbrev pub IsSum : Tally → Type 0
IsSum t = t.busy ≡ visible_sum t.shown

add_busy-IsSum : (t : Tally) (g : Wait) → IsSum t → IsSum (add_busy t g (g.sessions -ℤ g.masked))
unfolding add_busy foreground
add_busy-IsSum t g h =
    let n = pos (length g.background) in
    ground (
      arith,
      h,
      visible_sum-append t.shown g,
      visible_sum-append t.shown (foreground g),
      sub_swap g.sessions n g.masked,
    )

add_group-IsSum : (t : Tally) (g : Wait) → IsSum t → IsSum (add_group t g)
unfolding add_group add_rest
add_group-IsSum t g h =
    ground (arith, h, add_busy-IsSum (record t { hidden = t.hidden +ℤ g.masked }) g h)

tally_from-IsSum : (t : Tally) (gs : List Wait) → IsSum t → IsSum (tally_from t gs)
unfolding tally_from
tally_from-IsSum t [] h = h
tally_from-IsSum t (g ∷ gs) h = tally_from-IsSum (add_group t g) gs (add_group-IsSum t g h)

-- The counts that `kbdiag waits` prints account for every session once: those that are not idle, the
-- idle, background, hidden and untracked ones add up to the sessions of all groups, and the first
-- count is the sum of the sessions column of the table under it.
pub tally-partition :
    (gs : List Wait)
    → (total (tally_from nothing_yet gs) ≡ session_sum gs)
      × ((tally_from nothing_yet gs).busy ≡ visible_sum (tally_from nothing_yet gs).shown)
unfolding visible_sum session_sum ◌+ℤ◌
tally-partition gs = (
  total-tally_from nothing_yet gs
      ∙ +ℤ_comm (pos 0) (session_sum gs)
      ∙ +ℤ_none (session_sum gs) (pos 0) refl,
  tally_from-IsSum nothing_yet gs refl,
)
