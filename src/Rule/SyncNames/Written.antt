-- ===== src/Rule/SyncNames/Written.antt =====
-- internal/rule/repl.go: how the lexer reads a list of quoted names.
use Prim.Native.Char.{Char, code}
use Prim.Native.String.{◌++◌}
use mathlib.Core.List.{◌++◌ as ◌⧺◌}
use text.Mathlib.TextLemmas.{cons-append, nil-append, append-nil, append_assoc}
use kbdiag.Prelude.{
  ◌==◌, String, false, some, List, [], ◌∷◌, ◌≡◌, refl, sym, ap, ◌∙◌, arith, Bool-cases, inl, inr,
}
use kbdiag.Rule.Names.{replace_char}
use kbdiag.Rule.Names.Quoting.{quote_char, quote_of_code, twice-append}
use kbdiag.Rule.SyncNames.{
  SyncToken, bare, in_quotes, class_of, between, in_name, behind_quote, of_char, push, tokens_from,
  read_names, drop_close,
}

-- A name between double quotes, with the double quotes in it doubled.
unfoldable pub write_name : String → String → String
write_name n rest = "\"" ++ replace_char b'"' "\"\"" n ++ "\"" ++ rest

-- The names with commas between them, and what follows.
unfoldable pub write_names : List String → String → String
write_names [] rest = rest
write_names (n ∷ []) rest = write_name n rest
write_names (n ∷ n' ∷ ns) rest = write_name n (", " ++ write_names (n' ∷ ns) rest)

pub snoc-append : (w : String) (c : Char) (s : String) → (w ++ of_char c) ++ s ≡ w ++ String.◌∷◌ c s
snoc-append w c s =
    append_assoc w (of_char c) s
    ∙ ap (λ t. w ++ t) (cons-append c "" s ∙ ap (String.◌∷◌ c) (nil-append s))

pub one_append : (r : String) → "\"" ++ r ≡ String.◌∷◌ quote_char r
one_append r = cons-append quote_char "" r ∙ ap (String.◌∷◌ quote_char) (nil-append r)

pub name_step :
    (c : Char) (w s : String)
    → (code c == b'"') ≡ false
    → tokens_from (in_name w) (String.◌∷◌ c s) ≡ tokens_from (in_name (w ++ of_char c)) s
unfolding tokens_from class_of
name_step c w s h = ground arith

pub close_step :
    (w s : String)
    → tokens_from (in_name w) (String.◌∷◌ quote_char s) ≡ tokens_from (behind_quote w) s
unfolding tokens_from class_of
close_step w s = refl

pub double_step :
    (w s : String)
    → tokens_from (behind_quote w) (String.◌∷◌ quote_char s)
      ≡ tokens_from (in_name (w ++ of_char quote_char)) s
unfolding tokens_from class_of
double_step w s = refl

pub tokens-name :
    (n w rest : String)
    → tokens_from (in_name w) (replace_char b'"' "\"\"" n ++ ("\"" ++ rest))
      ≡ tokens_from (behind_quote (w ++ n)) rest
unfolding replace_char
tokens-name String.[] w rest =
    rw (nil-append ("\"" ++ rest)) (rw (one_append rest) (rw (append-nil w) (close_step w rest)))
tokens-name (String.◌∷◌ c n) w rest =
    let r = replace_char b'"' "\"\"" n in
    let more = "\"" ++ rest in
    elim (Bool-cases (code c == b'"')) [
      | inl e ↦ rw e (
          rw (twice-append r more) (
            close_step w (String.◌∷◌ quote_char (r ++ more))
            ∙ double_step w (r ++ more)
            ∙ tokens-name n (w ++ of_char quote_char) rest
            ∙ ap (λ t. tokens_from (behind_quote t) rest)
                (snoc-append w quote_char n
                  ∙ ap (λ d. w ++ String.◌∷◌ d n) (sym (quote_of_code c e)))))
      | inr e ↦ rw e (
          rw (cons-append c r more) (
            name_step c w (r ++ more) e
            ∙ tokens-name n (w ++ of_char c) rest
            ∙ ap (λ t. tokens_from (behind_quote t) rest) (snoc-append w c n)))
    ]

-- The tokens of a written list.
abbrev pub commas : List String → List SyncToken
commas [] = []
commas (n ∷ []) = in_quotes n ∷ []
commas (n ∷ n' ∷ ns) = in_quotes n ∷ bare "," ∷ commas (n' ∷ ns)

pub tokens-write_name :
    (n rest : String) → tokens_from between (write_name n rest) ≡ tokens_from (behind_quote n) rest
unfolding write_name
tokens-write_name n rest =
    let body = replace_char b'"' "\"\"" n ++ ("\"" ++ rest) in
    rw (one_append body) (
      quote_step body
      ∙ tokens-name n "" rest
      ∙ ap (λ t. tokens_from (behind_quote t) rest) (nil-append n))
  where
    quote_step :
        (s : String) → tokens_from between (String.◌∷◌ quote_char s) ≡ tokens_from (in_name "") s
    quote_step s = unfold tokens_from class_of in refl

pub comma_space : (r : String) → ", " ++ r ≡ String.◌∷◌ "," (String.◌∷◌ " " r)
comma_space r =
    cons-append "," " " r
    ∙ ap (String.◌∷◌ ",") (cons-append " " "" r ∙ ap (String.◌∷◌ " ") (nil-append r))

pub comma_step :
    (n r : String)
    → tokens_from (behind_quote n) (String.◌∷◌ "," (String.◌∷◌ " " r))
      ≡ push (in_quotes n) (push (bare ",") (tokens_from between r))
unfolding tokens_from class_of
comma_step n r = refl

pub tokens-write_names :
    (n : String) (ns : List String)
    → tokens_from between (write_names (n ∷ ns) ")") ≡ some (commas (n ∷ ns) ⧺ bare ")" ∷ [])
unfolding write_names
tokens-write_names n [] = tokens-write_name n ")" ∙ unfold tokens_from class_of in refl
tokens-write_names n (n' ∷ ns) =
    tokens-write_name n (", " ++ write_names (n' ∷ ns) ")")
    ∙ rw (comma_space (write_names (n' ∷ ns) ")"))
        (comma_step n (write_names (n' ∷ ns) ")") ∙ rw (tokens-write_names n' ns))

pub drop_close-concat : (ts : List SyncToken) → drop_close (ts ⧺ bare ")" ∷ []) ≡ some ts
unfolding drop_close
drop_close-concat [] = refl
drop_close-concat (t ∷ []) = refl
drop_close-concat (t ∷ u ∷ ts) = ap (push t) (drop_close-concat (u ∷ ts))

pub read_names-commas :
    (n : String) (ns : List String) → read_names (commas (n ∷ ns)) ≡ some (n ∷ ns)
unfolding read_names
read_names-commas n [] = refl
read_names-commas n (n' ∷ ns) = rw (read_names-commas n' ns)
