-- ===== src/Conn/Quoted.antt =====
-- internal/conn/conn.go: quote against the reader of connection strings.
use Prim.Native.Char.{Char, code}
use Prim.Native.String.{◌++◌}
use text.Mathlib.TextEquality.{Char-path}
use text.Mathlib.TextLemmas.{cons-append, nil-append, append_assoc}
use kbdiag.Prelude.{
  ◌==◌, String, Bool, true, false, Option, none, some, if◌then◌else◌, ◌≡◌, refl, ap, sym, arith,
  Bool-cases, inl, inr,
}
use kbdiag.Conn.{escape, quote}

-- One more character of the value.
abbrev pub with_char : Char → Option (String × String) → Option (String × String)
with_char c none = none
with_char c (some (v, rest)) = some (String.◌∷◌ c v, rest)

-- Reading a quoted value of a connection string behind its opening quote: the value, and what
-- follows its closing quote. A backslash (`behind`) makes the next character stand for itself.
unfoldable pub read_value : Bool → String → Option (String × String)
read_value behind String.[] = none
read_value true (String.◌∷◌ c s) = with_char c (read_value false s)
read_value false (String.◌∷◌ c s) =
    let skip = read_value true s in
    let more = with_char c (read_value false s) in
    if code c == b'\\' then skip else if code c == b'\'' then some ("", s) else more

-- A value in single quotes.
unfoldable pub read_quoted_value : String → Option (String × String)
unfolding read_value
read_quoted_value String.[] = none
read_quoted_value (String.◌∷◌ c s) =
    let value = read_value false s in if code c == b'\'' then value else none

abbrev apostrophe : Char
apostrophe = "'"

abbrev backslash : Char
backslash = "\\"

two_append :
    (c : Char) (r t : String)
    → (String.◌∷◌ backslash (String.◌∷◌ c "") ++ r) ++ t
      ≡ String.◌∷◌ backslash (String.◌∷◌ c (r ++ t))
two_append c r t =
    rw (cons-append backslash (String.◌∷◌ c "") r, cons-append c "" r, nil-append r)
      (rw (cons-append) (rw (cons-append) refl))

read_value-escape :
    (v t : String) → read_value false (escape v ++ String.◌∷◌ apostrophe t) ≡ some (v, t)
unfolding read_value escape
read_value-escape String.[] t = rw (nil-append) refl
read_value-escape (String.◌∷◌ c v) t = elim (Bool-cases (code c == b'\\')) [
  | inl e ↦
      let eq : c ≡ backslash = Char-path c backslash (ground (arith, e)) in
      rw e (
        rw (two_append backslash (escape v) (String.◌∷◌ apostrophe t))
          (rw (read_value-escape v t) (ap (λ d. some (String.◌∷◌ d v, t)) (sym eq))))
  | inr other ↦ elim (Bool-cases (code c == b'\'')) [
    | inl e ↦
        let eq : c ≡ apostrophe = Char-path c apostrophe (ground (arith, e)) in
        rw (other, e)
          (rw (two_append apostrophe (escape v) (String.◌∷◌ apostrophe t))
            (rw (read_value-escape v t) (ap (λ d. some (String.◌∷◌ d v, t)) (sym eq))))
    | inr plain ↦
        rw (other, plain) (rw (cons-append) (rw (other, plain) (rw (read_value-escape v t) refl)))
  ]
]

-- A value that quote wrote into a connection string is read back as that very value, and what
-- follows it is left as it is: no value can end early and set another parameter.
pub read_quoted_value-quote :
    (v rest : String) → read_quoted_value (quote v ++ rest) ≡ some (v, rest)
unfolding read_quoted_value quote
read_quoted_value-quote v rest =
    rw (cons-append apostrophe "" (escape v ++ "'"), nil-append (escape v ++ "'"))
      (rw (cons-append apostrophe (escape v ++ "'") rest) (
        rw (append_assoc (escape v) "'" rest, cons-append apostrophe "" rest, nil-append rest)
          (read_value-escape v rest)))
