-- ===== src/Rule/SyncNames/Words.antt =====
-- internal/rule/repl.go: how the lexer reads a bare word, and Atoi a number.
use Prim.Native.Char.{Char}
use Prim.Native.String.{◌++◌}
use text.Mathlib.TextLemmas.{cons-append, nil-append, append-nil}
use kbdiag.Prelude.{
  ℕ, zero, suc, ◌/◌, ◌%◌, ◌<◌, ◌^◌, ◌==◌, ltb, pos, String, Bool, true, false, some, show_ℕ, digit,
  decimal, if◌then◌else◌, ◌≡◌, refl, ap, ◌∙◌, arith, Bool-cases, inl, inr,
}
use kbdiag.Prelude.Decimal.{read_digits}
use kbdiag.Rule.SyncNames.{
  bare, other, class_of, between, in_word, of_char, push, tokens_from, atoi,
}
use kbdiag.Rule.SyncNames.Written.{snoc-append}

-- Text that syncTokens takes into one word.
abbrev pub IsWord : String → Type 0
IsWord String.[] = Unit
IsWord (String.◌∷◌ c s) = (class_of c ≡ other) × IsWord s

pub IsWord-append : (s t : String) → IsWord s → IsWord t → IsWord (s ++ t)
IsWord-append String.[] t h k = rw (nil-append t) k
IsWord-append (String.◌∷◌ c s) t h k = rw (cons-append c s t) (h.0, IsWord-append s t h.1 k)

pub if-IsWord : (s t : String) (b : Bool) → IsWord s → IsWord t → IsWord (if b then s else t)
if-IsWord s t true h k = h
if-IsWord s t false h k = k

pub digit-IsWord : (d : ℕ) → IsWord (digit d)
unfolding digit class_of
digit-IsWord d =
    if-IsWord _ _ (d == 0) (refl, tt)
      (if-IsWord _ _ (d == 1) (refl, tt)
        (if-IsWord _ _ (d == 2) (refl, tt)
          (if-IsWord _ _ (d == 3) (refl, tt)
            (if-IsWord _ _ (d == 4) (refl, tt)
              (if-IsWord _ _ (d == 5) (refl, tt)
                (if-IsWord _ _ (d == 6) (refl, tt)
                  (if-IsWord _ _ (d == 7) (refl, tt)
                    (if-IsWord _ _ (d == 8) (refl, tt) (refl, tt)))))))))

pub decimal-IsWord : (f n : ℕ) → IsWord (decimal f n)
unfolding decimal
decimal-IsWord zero n = tt
decimal-IsWord (suc f) n = elim (Bool-cases (ltb n 10)) [
  | inl e ↦ rw e (digit-IsWord n)
  | inr e ↦ rw e (
      IsWord-append (decimal f (n / 10)) (digit (n % 10)) (decimal-IsWord f (n / 10))
        (digit-IsWord (n % 10)))
]

pub word_step :
    (c : Char) (w s : String)
    → class_of c ≡ other
    → tokens_from (in_word w) (String.◌∷◌ c s) ≡ tokens_from (in_word (w ++ of_char c)) s
unfolding tokens_from
word_step c w s h = rw (h, tokens_from)

pub start_step :
    (c : Char) (s : String)
    → class_of c ≡ other
    → tokens_from between (String.◌∷◌ c s) ≡ tokens_from (in_word (of_char c)) s
unfolding tokens_from
start_step c s h = rw (h, tokens_from)

pub space_step :
    (w r : String)
    → tokens_from (in_word w) (String.◌∷◌ " " r) ≡ push (bare w) (tokens_from between r)
unfolding tokens_from class_of
space_step w r = refl

pub space_append : (r : String) → " " ++ r ≡ String.◌∷◌ " " r
space_append r = cons-append " " "" r ∙ ap (String.◌∷◌ " ") (nil-append r)

pub tokens-word :
    (s w rest : String)
    → IsWord s
    → tokens_from (in_word w) (s ++ (" " ++ rest)) ≡ push (bare (w ++ s)) (tokens_from between rest)
tokens-word String.[] w rest h =
    rw (nil-append (" " ++ rest)) (rw (space_append rest) (rw (append-nil w) (space_step w rest)))
tokens-word (String.◌∷◌ c s) w rest h = rw (cons-append c s (" " ++ rest)) (
    word_step c w (s ++ (" " ++ rest)) h.0
    ∙ tokens-word s (w ++ of_char c) rest h.1
    ∙ ap (λ t. push (bare t) (tokens_from between rest)) (snoc-append w c s))

abbrev pub IsNonempty : String → Type 0
IsNonempty String.[] = ⊥
IsNonempty _ = Unit

pub tokens-first_word :
    (s rest : String)
    → IsWord s
    → IsNonempty s
    → tokens_from between (s ++ (" " ++ rest)) ≡ push (bare s) (tokens_from between rest)
tokens-first_word String.[] rest h k = absurd k
tokens-first_word (String.◌∷◌ c s) rest h k = rw (cons-append c s (" " ++ rest)) (
    start_step c (s ++ (" " ++ rest)) h.0
    ∙ tokens-word s (of_char c) rest h.1
    ∙ ap (λ t. push (bare t) (tokens_from between rest))
        (cons-append c "" s ∙ ap (String.◌∷◌ c) (nil-append s)))

pub if-IsNonempty :
    (s t : String) (b : Bool) → IsNonempty s → IsNonempty t → IsNonempty (if b then s else t)
if-IsNonempty s t true h k = h
if-IsNonempty s t false h k = k

pub digit-IsNonempty : (d : ℕ) → IsNonempty (digit d)
unfolding digit
digit-IsNonempty d = if-IsNonempty _ _ (d == 0) tt (
    if-IsNonempty _ _ (d == 1) tt (
      if-IsNonempty _ _ (d == 2) tt (
        if-IsNonempty _ _ (d == 3) tt (
          if-IsNonempty _ _ (d == 4) tt (
            if-IsNonempty _ _ (d == 5) tt (
              if-IsNonempty _ _ (d == 6) tt
                (if-IsNonempty _ _ (d == 7) tt (if-IsNonempty _ _ (d == 8) tt tt))))))))

pub append-IsNonempty : (s t : String) → IsNonempty t → IsNonempty (s ++ t)
append-IsNonempty String.[] t h = rw (nil-append t) h
append-IsNonempty (String.◌∷◌ c s) t h = rw (cons-append c s t) tt

pub show_ℕ-IsNonempty : (n : ℕ) → IsNonempty (show_ℕ n)
unfolding show_ℕ decimal
show_ℕ-IsNonempty n =
    if-IsNonempty _ _ (ltb n 10) (digit-IsNonempty n)
      (append-IsNonempty (decimal n (n / 10)) (digit (n % 10)) (digit-IsNonempty (n % 10)))

pub atoi-digits :
    (s : String) (n : ℕ)
    → IsNonempty s
    → read_digits 0 s ≡ some n
    → n < 2 ^ 63
    → atoi s ≡ some (pos n)
unfolding atoi read_digits
atoi-digits String.[] n h e l = absurd h
atoi-digits (String.◌∷◌ c s) n h e l = ground arith
