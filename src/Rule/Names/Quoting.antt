-- ===== src/Rule/Names/Quoting.antt =====
-- internal/rule/names.go: quoteIdent against the identifiers of the SQL lexer.
use Prim.Native.Char.{Char, code}
use Prim.Native.String.{◌++◌}
use text.Mathlib.TextLemmas.{cons-append, nil-append}
use text.Mathlib.TextEquality.{Char-path}
use kbdiag.Prelude.{
  ℕ, ◌==◌, leb, String, Bool, true, false, Option, none, some, ◌&&◌, ◌||◌, not, if◌then◌else◌, ◌≡◌,
  refl, ap, sym, ◌∙◌, arith, Bool-cases, inl, inr,
}
use kbdiag.Rule.Names.{
  quote_ident, replace_char, is_keyword, is_empty, plain_runes, plain_later, any_char,
}

abbrev pub map_some {ℓ κ} : {A : Type ℓ} {B : Type κ} → (A → B) → Option A → Option B
map_some f none = none
map_some f (some a) = some (f a)

-- Reading behind an opening double quote, up to the closing one, which must be the last
-- character. After a double quote (`pending`) another one stands for itself.
pub read_quoted : Bool → String → Option String
read_quoted false String.[] = none
read_quoted true String.[] = some ""
read_quoted false (String.◌∷◌ c s) =
    let stop = read_quoted true s in
    let more = map_some (λ t. String.◌∷◌ c t) (read_quoted false s) in
    if code c == b'"' then stop else more
read_quoted true (String.◌∷◌ c s) =
    let more = map_some (λ t. String.◌∷◌ c t) (read_quoted false s) in
    if code c == b'"' then more else none

abbrev pub quote_char : Char
quote_char = "\""

pub quote_of_code : (c : Char) → (code c == b'"') ≡ true → c ≡ quote_char
quote_of_code c e = Char-path c quote_char (ground arith)

pub twice-append :
    (r t : String) → ("\"\"" ++ r) ++ t ≡ String.◌∷◌ quote_char (String.◌∷◌ quote_char (r ++ t))
twice-append r t =
    ap (λ x. x ++ t)
      (cons-append quote_char "\"" r
        ∙ ap (String.◌∷◌ quote_char)
            (cons-append quote_char "" r ∙ ap (String.◌∷◌ quote_char) (nil-append r)))
    ∙ cons-append quote_char (String.◌∷◌ quote_char r) t
    ∙ ap (String.◌∷◌ quote_char) (cons-append quote_char r t)

read-replace : (s : String) → read_quoted false (replace_char b'"' "\"\"" s ++ "\"") ≡ some s
unfolding read_quoted replace_char
read-replace String.[] = refl
read-replace (String.◌∷◌ c s) = elim (Bool-cases (code c == b'"')) [
  | inl e ↦ rw e (
      rw (twice-append (replace_char b'"' "\"\"" s) "\"")
        (rw (read-replace s) (ap (λ d. some (String.◌∷◌ d s)) (sym (quote_of_code c e)))))
  | inr e ↦ rw e (rw (cons-append) (rw e (rw (read-replace s))))
]

-- The characters of a bare identifier in the SQL lexer, and those that it folds to lower case.
abbrev pub is_upper : ℕ → Bool
is_upper r = leb b'A' r && leb r b'Z'

abbrev pub ident_start : ℕ → Bool
ident_start r = leb b'a' r && leb r b'z' || is_upper r || r == b'_' || leb 0x80 r

abbrev pub ident_later : ℕ → Bool
ident_later r = ident_start r || leb b'0' r && leb r b'9' || r == b'$'

abbrev pub is_bare : String → Bool
is_bare String.[] = false
is_bare (String.◌∷◌ c s) = ident_start (code c) && not (any_char (λ r. not (ident_later r)) s)

-- How the SQL lexer reads an identifier: one that begins with a double quote up to the closing
-- one; else a bare one. A keyword is no identifier, and a bare one with a capital letter names
-- something else than its text.
pub read_ident : String → Option String
unfolding read_quoted
read_ident String.[] = none
read_ident (String.◌∷◌ c s) =
    let bare = String.◌∷◌ c s in
    if code c == b'"'
    then read_quoted false s
    else if is_bare bare && not (any_char is_upper bare) && not (is_keyword bare)
    then some bare
    else none

plain_later-bare :
    (s : String)
    → any_char (λ r. not (plain_later r)) s ≡ false
    → (any_char (λ r. not (ident_later r)) s ≡ false) × (any_char is_upper s ≡ false)
plain_later-bare String.[] h = (refl, refl)
plain_later-bare (String.◌∷◌ c s) h = ground (arith, plain_later-bare s)

read_ident-plain :
    (s : String)
    → is_empty s ≡ false
    → is_keyword s ≡ false
    → plain_runes s ≡ true
    → read_ident s ≡ some s
unfolding read_ident
read_ident-plain String.[] e k p = cc
read_ident-plain (String.◌∷◌ c s) e k p = ground (arith, plain_later-bare s)

read_ident-quoted : (s : String) → read_ident ("\"" ++ replace_char b'"' "\"\"" s ++ "\"") ≡ some s
unfolding read_ident
read_ident-quoted s =
    let r = replace_char b'"' "\"\"" s ++ "\"" in
    rw (cons-append quote_char "" r) (rw (nil-append r) (read-replace s))

plain_parts : (a b c : Bool) → (not a && not b && c) ≡ true → (a ≡ false) × (b ≡ false) × (c ≡ true)
plain_parts a b c h = ground arith

-- What quoteIdent writes for a name is read back by the SQL lexer as that very name, whatever
-- characters it holds and keywords included.
pub read_ident-quote_ident : (s : String) → read_ident (quote_ident s) ≡ some s
unfolding quote_ident
read_ident-quote_ident s =
    elim (Bool-cases (not (is_empty s) && not (is_keyword s) && plain_runes s)) [
      | inl e ↦
          let (named, free, plain) = plain_parts (is_empty s) (is_keyword s) (plain_runes s) e in
          rw e (read_ident-plain s named free plain)
      | inr e ↦ rw e (read_ident-quoted s)
    ]
