-- ===== src/Rule/SyncNames/Roundtrip.antt =====
-- internal/rule/repl.go: parseSyncNames against a writer of synchronous_standby_names.
use Prim.Native.String.{◌++◌}
use mathlib.Core.List.{◌++◌ as ◌⧺◌}
use text.Mathlib.TextLemmas.{cons-append, nil-append}
use kbdiag.Prelude.{
  ℕ, suc, ◌<◌, ◌^◌, pos, String, Bool, true, ◌||◌, some, List, [], ◌∷◌, show_ℕ, ◌≡◌, refl, ap, ◌∙◌,
  arith,
}
use kbdiag.Prelude.Decimal.{read_digits-show_ℕ}
use kbdiag.Unicode.{Unicode}
use kbdiag.Rule.SyncNames.{
  SyncToken, bare, class_of, between, push, tokens_from, sync_tokens, atoi, read_names, drop_close,
  parse_from, parse_tokens, parse_sync_names,
}
use kbdiag.Rule.SyncNames.Written.{
  write_names, commas, tokens-write_names, drop_close-concat, read_names-commas,
}
use kbdiag.Rule.SyncNames.Words.{
  IsWord, decimal-IsWord, IsNonempty, tokens-first_word, show_ℕ-IsNonempty, atoi-digits,
}

open_par : (r : String) → "(" ++ r ≡ String.◌∷◌ "(" r
open_par r = cons-append "(" "" r ∙ ap (String.◌∷◌ "(") (nil-append r)

open_step :
    (r : String) → tokens_from between (String.◌∷◌ "(" r) ≡ push (bare "(") (tokens_from between r)
unfolding tokens_from class_of
open_step r = refl

-- A list of synchronous standbys as the setting has it: a keyword, how many, and the names.
unfoldable pub write_sync : String → ℕ → List String → String
write_sync keyword n names =
    keyword ++ (" " ++ (show_ℕ n ++ (" " ++ ("(" ++ write_names names ")"))))

tokens-write_sync :
    (keyword : String) (n : ℕ) (name : String) (names : List String)
    → IsWord keyword
    → IsNonempty keyword
    → sync_tokens (write_sync keyword n (name ∷ names))
      ≡ some (bare keyword ∷ bare (show_ℕ n) ∷ bare "(" ∷ (commas (name ∷ names) ⧺ bare ")" ∷ []))
unfolding sync_tokens write_sync
tokens-write_sync keyword n name names word full =
    let list = write_names (name ∷ names) ")" in
    tokens-first_word keyword _ word full
    ∙ ap (push (bare keyword)) (
        tokens-first_word (show_ℕ n) _ (unfold show_ℕ in decimal-IsWord (suc n) n)
          (show_ℕ-IsNonempty n)
        ∙ ap (push (bare (show_ℕ n))) (
            ap (tokens_from between) (open_par list)
            ∙ open_step list
            ∙ ap (push (bare "(")) (tokens-write_names name names)))

parse_from-counted :
    (keyword : Bool) (t : String) (n : ℕ) (ts inner : List SyncToken) (names : List String)
    → atoi t ≡ some (pos n)
    → drop_close ts ≡ some inner
    → read_names inner ≡ some names
    → parse_from keyword (bare t ∷ bare "(" ∷ ts) ≡ some (pos n, names)
unfolding parse_from
parse_from-counted keyword t n ts inner names e d r = ground arith

parse-write_tokens :
    ⦃u : Unicode⦄ (keyword name : String) (n : ℕ) (names : List String)
    → (u.equal_fold keyword "first" || u.equal_fold keyword "any") ≡ true
    → n < 2 ^ 63
    → parse_tokens
        (bare keyword ∷ bare (show_ℕ n) ∷ bare "(" ∷ (commas (name ∷ names) ⧺ bare ")" ∷ []))
      ≡ some (pos n, name ∷ names)
unfolding parse_tokens
parse-write_tokens keyword name n names known small = rw known (
    parse_from-counted true (show_ℕ n) n _ _ _
      (atoi-digits (show_ℕ n) n (show_ℕ-IsNonempty n) (read_digits-show_ℕ n) small)
      (drop_close-concat (commas (name ∷ names))) (read_names-commas name names))

-- A keyword that reads as FIRST or ANY, a number that fits an int, and quoted names, whatever
-- characters the names hold, are parsed back to that number and those names, in order.
pub parse-write_sync :
    ⦃u : Unicode⦄ (keyword name : String) (n : ℕ) (names : List String)
    → (u.equal_fold keyword "first" || u.equal_fold keyword "any") ≡ true
    → IsWord keyword
    → IsNonempty keyword
    → n < 2 ^ 63
    → parse_sync_names (write_sync keyword n (name ∷ names)) ≡ some (pos n, name ∷ names)
unfolding parse_sync_names
parse-write_sync keyword name n names known word full small =
    rw (tokens-write_sync keyword n name names word full, parse_sync_names)
      (parse-write_tokens keyword name n names known small)
