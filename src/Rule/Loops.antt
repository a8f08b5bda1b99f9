-- ===== src/Rule/Loops.antt =====
-- The loops of the rules over their rows: what their findings and unread rows come to.
use kbdiag.Prelude.{Bool, false, List, [], ◌∷◌, ◌||◌, any, ◌≡◌, refl, arith}
use kbdiag.Rule.Base.{Seen, flagged, findings_of, is_hidden, some_hidden, verdict_of}
use kbdiag.Rule.Verdicts.{is_fail, is_warn, level_verdict, verdict_of_levels}

-- A judgement that flags with the level WARN, or with FAIL.
abbrev pub warns : {F : Type 0} → Seen F → Bool
warns (flagged f) = is_warn f
warns _ = false

abbrev pub fails : {F : Type 0} → Seen F → Bool
fails (flagged f) = is_fail f
fails _ = false

module _ {ℓ} {A : Type ℓ} {F : Type 0} (judge : A → Seen F) where
  pub any-fail-findings_of :
      (xs : List A) → any is_fail (findings_of judge xs) ≡ any (λ x. fails (judge x)) xs
  unfolding findings_of
  any-fail-findings_of [] = refl
  any-fail-findings_of (x ∷ xs) = ground (arith, any-fail-findings_of xs)

  pub any-warn-findings_of :
      (xs : List A) → any is_warn (findings_of judge xs) ≡ any (λ x. warns (judge x)) xs
  unfolding findings_of
  any-warn-findings_of [] = refl
  any-warn-findings_of (x ∷ xs) = ground (arith, any-warn-findings_of xs)

  -- The verdict of a loop, by what its rounds do.
  pub verdict-loop :
      (xs : List A) (u : Bool)
      → verdict_of (findings_of judge xs) u
        ≡ level_verdict (any (λ x. fails (judge x)) xs) (any (λ x. warns (judge x)) xs) u
  verdict-loop xs u =
      cc (
        verdict_of_levels (findings_of judge xs) u,
        any-fail-findings_of xs,
        any-warn-findings_of xs,
      )

  pub any-false : (p : A → Bool) (xs : List A) → ((x : A) → p x ≡ false) → any p xs ≡ false
  any-false p [] h = refl
  any-false p (x ∷ xs) h = ground (arith, h x, any-false p xs h)

pub any-cong {ℓ} :
    {A : Type ℓ} (p q : A → Bool) (xs : List A) → ((x : A) → p x ≡ q x) → any p xs ≡ any q xs
any-cong p q [] h = refl
any-cong p q (x ∷ xs) h = ground (arith, h x, any-cong p q xs h)

module _ {ℓ} {A : Type ℓ} {F : Type 0} (judge : A → Seen F) (w h : A → Bool) where
  -- The verdict of a loop that never fails, by the rows that warn and those that it cannot read.
  pub verdict-warning_loop :
      ((x : A) → fails (judge x) ≡ false)
      → ((x : A) → warns (judge x) ≡ w x)
      → ((x : A) → is_hidden (judge x) ≡ h x)
      → (xs : List A) (u : Bool)
      → verdict_of (findings_of judge xs) (u || some_hidden judge xs)
        ≡ level_verdict false (any w xs) (u || any h xs)
  verdict-warning_loop never ws hs xs u = cc (
    verdict-loop judge xs (u || some_hidden judge xs),
    any-false judge (λ x. fails (judge x)) xs never,
    any-cong (λ x. warns (judge x)) w xs ws,
    any-cong (λ x. is_hidden (judge x)) h xs hs,
  )

  -- The verdict of a loop that never warns.
  pub verdict-failing_loop :
      ((x : A) → warns (judge x) ≡ false)
      → ((x : A) → fails (judge x) ≡ w x)
      → ((x : A) → is_hidden (judge x) ≡ h x)
      → (xs : List A) (u : Bool)
      → verdict_of (findings_of judge xs) (u || some_hidden judge xs)
        ≡ level_verdict (any w xs) false (u || any h xs)
  verdict-failing_loop never ws hs xs u = cc (
    verdict-loop judge xs (u || some_hidden judge xs),
    any-false judge (λ x. warns (judge x)) xs never,
    any-cong (λ x. fails (judge x)) w xs ws,
    any-cong (λ x. is_hidden (judge x)) h xs hs,
  )
