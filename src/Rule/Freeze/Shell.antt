-- ===== src/Rule/Freeze/Shell.antt =====
-- internal/rule/freeze.go: shellWord against the words of a POSIX shell.
use Prim.Native.Char.{Char, code}
use Prim.Native.String.{◌++◌}
use text.Mathlib.TextEquality.{Char-path}
use text.Mathlib.TextLemmas.{cons-append, nil-append}
use kbdiag.Prelude.{
  ℕ, ◌==◌, leb, String, Bool, true, false, Option, none, some, ◌&&◌, ◌||◌, not, if◌then◌else◌, ◌≡◌,
  refl, ap, sym, arith, Bool-cases, inl, inr,
}
use kbdiag.Unicode.{Unicode}
use kbdiag.Rule.Names.{any_char, replace_char, is_empty}
use kbdiag.Rule.Names.Quoting.{map_some}
use kbdiag.Rule.Freeze.{shell_word}

-- Where a shell stands in a word: outside quotes, between single quotes, behind a backslash.
pub data ShellMode : Type 0 where
  bare_word in_quotes escaped : ShellMode

abbrev pub is_plain_ascii : ℕ → Bool
is_plain_ascii r =
    leb b'a' r && leb r b'z'
    || leb b'A' r && leb r b'Z'
    || leb b'0' r && leb r b'9'
    || r == b'_'
    || r == b'-'
    || r == b'.'

-- A character that stands for itself outside quotes: the ASCII letters, digits and _-. and all
-- that is not ASCII. The shell may read another one as something else.
abbrev pub is_inert : ℕ → Bool
is_inert r = leb 0x80 r || is_plain_ascii r

-- The word that a shell reads, if the text is one word.
unfoldable pub read_word : ShellMode → String → Option String
read_word bare_word String.[] = some ""
read_word in_quotes String.[] = none
read_word escaped String.[] = none
read_word bare_word (String.◌∷◌ c s) =
    let quoted = read_word in_quotes s in
    let escape = read_word escaped s in
    let more = map_some (λ t. String.◌∷◌ c t) (read_word bare_word s) in
    if code c == b'\''
    then quoted
    else if code c == b'\\'
    then escape
    else if is_inert (code c)
    then more
    else none
read_word in_quotes (String.◌∷◌ c s) =
    let close = read_word bare_word s in
    let more = map_some (λ t. String.◌∷◌ c t) (read_word in_quotes s) in
    if code c == b'\'' then close else more
read_word escaped (String.◌∷◌ c s) = map_some (λ t. String.◌∷◌ c t) (read_word bare_word s)

abbrev apostrophe : Char
apostrophe = "'"

abbrev backslash : Char
backslash = "\\"

apostrophe_of_code : (c : Char) → (code c == b'\'') ≡ true → c ≡ apostrophe
apostrophe_of_code c e = Char-path c apostrophe (ground arith)

escape-append :
    (r t : String)
    → ("'\\''" ++ r) ++ t
      ≡ String.◌∷◌ apostrophe
          (String.◌∷◌ backslash (String.◌∷◌ apostrophe (String.◌∷◌ apostrophe (r ++ t))))
escape-append r t =
    rw
      (
        cons-append apostrophe "\\''" r,
        cons-append backslash "''" r,
        cons-append apostrophe "'" r,
        cons-append apostrophe "" r,
        nil-append r,
      )
      (rw (cons-append) (rw (cons-append) (rw (cons-append) (rw (cons-append) refl))))

read_word-replace :
    (s : String) → read_word in_quotes (replace_char b'\'' "'\\''" s ++ "'") ≡ some s
unfolding read_word replace_char
read_word-replace String.[] = refl
read_word-replace (String.◌∷◌ c s) = elim (Bool-cases (code c == b'\'')) [
  | inl e ↦ rw e (
      rw (escape-append (replace_char b'\'' "'\\''" s) "'")
        (rw (read_word-replace s) (ap (λ d. some (String.◌∷◌ d s)) (sym (apostrophe_of_code c e)))))
  | inr e ↦ rw e (rw (cons-append) (rw e (rw (read_word-replace s))))
]

read_word-quoted :
    (s : String) → read_word bare_word ("'" ++ replace_char b'\'' "'\\''" s ++ "'") ≡ some s
unfolding read_word
read_word-quoted s =
    let r = replace_char b'\'' "'\\''" s ++ "'" in
    rw (cons-append apostrophe "" r) (rw (nil-append r) (read_word-replace s))

read_word-inert :
    (s : String) → any_char (λ r. not (is_inert r)) s ≡ false → read_word bare_word s ≡ some s
unfolding read_word
read_word-inert String.[] h = refl
read_word-inert (String.◌∷◌ c s) h = ground (arith, h, read_word-inert s)

module _ ⦃u : Unicode⦄ where
  -- The test that shellWord makes of a character.
  abbrev pub is_word_rune : ℕ → Bool
  is_word_rune r = u.is_letter r || u.is_digit r || r == b'_' || r == b'-' || r == b'.'

  -- Of the ASCII characters unicode.IsLetter and unicode.IsDigit accept only plain ones.
  abbrev pub AsciiTables : Type 0
  AsciiTables =
      (r : ℕ)
      → leb 0x80 r ≡ false
      → (u.is_letter r || u.is_digit r) ≡ true
      → is_plain_ascii r ≡ true

  word_rune-inert : AsciiTables → (r : ℕ) → is_word_rune r ≡ true → is_inert r ≡ true
  word_rune-inert tables r h = ground (arith, h, tables r)

  word-inert :
      AsciiTables
      → (s : String) → any_char (λ r. not (is_word_rune r)) s ≡ false
      → any_char (λ r. not (is_inert r)) s ≡ false
  word-inert tables String.[] h = refl
  word-inert tables (String.◌∷◌ c s) h =
      ground (arith, h, word_rune-inert tables (code c), word-inert tables s)

  -- What shellWord writes for a text is read by a shell as one word, that very text, whatever
  -- characters it holds, if unicode.IsLetter and unicode.IsDigit accept no other ASCII characters
  -- than ASCII letters, digits and _-.
  pub read_word-shell_word :
      AsciiTables → (s : String) → read_word bare_word (shell_word s) ≡ some s
  unfolding shell_word
  read_word-shell_word tables s =
      elim (Bool-cases (not (is_empty s) && not (any_char (λ r. not (is_word_rune r)) s))) [
        | inl e ↦ rw e (read_word-inert s (word-inert tables s (ground (arith, e))))
        | inr e ↦ rw e (read_word-quoted s)
      ]
