-- ===== src/Rule/Names/Booleans.antt =====
-- internal/rule/names.go: parseBool.
use Prim.Native.Char.{code}
use kbdiag.Prelude.{
  ℕ, suc, ◌==◌, leb, String, Bool, true, false, Option, none, some, List, [], ◌∷◌, ◌&&◌, ◌||◌,
  str_eq, if◌then◌else◌,
}
use kbdiag.Rule.Names.{is_empty}
use kbdiag.Unicode.{Unicode}

-- strings.HasPrefix(word, s)
unfoldable pub is_prefix_of : String → String → Bool
is_prefix_of String.[] word = true
is_prefix_of (String.◌∷◌ c s) String.[] = false
is_prefix_of (String.◌∷◌ c s) (String.◌∷◌ d word) =
    let rest = is_prefix_of s word in code c == code d && rest

-- len(s)
unfoldable pub text_length : String → ℕ
text_length String.[] = 0
text_length (String.◌∷◌ c s) = suc (text_length s)

pub record BoolWord : Type 0 where
  pub word : String
  pub least : ℕ
  pub value : Bool

abbrev pub word_of : String → ℕ → Bool → BoolWord
word_of word least value = record { word = word; least = least; value = value }

abbrev pub bool_words : List BoolWord
bool_words =
    word_of "true" 1 true
    ∷ word_of "false" 1 false
    ∷ word_of "yes" 1 true
    ∷ word_of "no" 1 false
    ∷ word_of "on" 2 true
    ∷ word_of "off" 2 false
    ∷ word_of "1" 1 true
    ∷ word_of "0" 1 false
    ∷ []

-- The test of the loop. Both lengths are of ASCII where the prefix test holds, so that counting
-- characters for bytes decides the same.
abbrev pub is_match : String → BoolWord → Bool
is_match s x =
    leb x.least (text_length s) && leb (text_length s) (text_length x.word) && is_prefix_of s x.word

-- The loop of parseBool: the first word that matches; `none` is ok == false.
unfoldable pub parse_word : String → List BoolWord → Option Bool
unfolding is_prefix_of text_length
parse_word s [] = none
parse_word s (x ∷ xs) =
    let rest = parse_word s xs in
    if is_match s x
    then (if (str_eq x.word "on" || str_eq x.word "off") && str_eq s "o"
        then none
        else some x.value)
    else rest

-- parseBool
unfoldable pub parse_bool : ⦃u : Unicode⦄ → String → Option Bool
unfolding parse_word
parse_bool ⦃u⦄ s =
    let t = u.to_lower (u.trim_space s) in if is_empty t then none else parse_word t bool_words
