-- ===== src/Examples/Texts.antt =====
-- Quoted names, lists of synchronous standbys, durations and suggested SQL at concrete texts.
use Prim.Native.String.{◌++◌}
use kbdiag.Prelude.{◌*◌, ℕ, arith, pos, ◌+◌, ◌<◌, ◌≤◌, true, false, some, [], ◌∷◌, ◌≡◌, refl}
use kbdiag.Rule.Names.{quote_ident, has_control, any_char, is_control, is_format}
use kbdiag.Rule.Names.Quoting.{read_ident, read_ident-quote_ident}
use kbdiag.Rule.SyncNames.{parse_sync_names, class_of}
use kbdiag.Rule.SyncNames.Words.{IsWord}
use kbdiag.Rule.SyncNames.Roundtrip.{write_sync, parse-write_sync}
use kbdiag.Rule.Seq.{seq_fix}
use kbdiag.Rule.Seq.Fix.{seq_fix-plain}
use kbdiag.Rule.Txn.{prepared_fix}
use kbdiag.Rule.Txn.Hostile.{prepared_fix-hostile}
use kbdiag.Rule.Freeze.{shell_word}
use kbdiag.Rule.Freeze.Shell.{AsciiTables, bare_word, read_word, read_word-shell_word}
use kbdiag.Conn.{quote, timeout_millis}
use kbdiag.Conn.Quoted.{read_quoted_value, read_quoted_value-quote}
use kbdiag.Conn.Timeout.{timeout_millis-least}
use kbdiag.Units.{parts, two_largest}
use kbdiag.Units.Laws.{seconds, last_unit, two_largest-parts}
use kbdiag.Examples.Samples.{ascii, prepared_of, sequence_of}

read_ident-quote_ident_example : read_ident (quote_ident "Order \"lines\"") ≡ some "Order \"lines\""
read_ident-quote_ident_example = read_ident-quote_ident "Order \"lines\""

first-IsWord : IsWord "first"
unfolding class_of
first-IsWord = (refl, (refl, (refl, (refl, (refl, tt)))))

parse-write_sync_example :
    parse_sync_names ⦃u = ascii⦄ (write_sync "first" 2 ("a, \"b\"" ∷ "node2" ∷ []))
    ≡ some (pos 2, "a, \"b\"" ∷ "node2" ∷ [])
parse-write_sync_example =
    parse-write_sync ⦃u = ascii⦄ "first" "a, \"b\"" 2 ("node2" ∷ []) refl first-IsWord tt
      (omega arith)

seq_fix-plain_example : has_control (seq_fix (sequence_of 100 1 (some (pos 100)))).sql ≡ false
seq_fix-plain_example = seq_fix-plain (sequence_of 100 1 (some (pos 100)))

-- A zero-width space is a format character, and no control character.
no_controls : any_char is_control "tx\u{200b}1" ≡ false
unfolding is_control
no_controls = refl

some_format : any_char is_format "tx\u{200b}1" ≡ true
unfolding is_format
some_format = refl

prepared_fix-hostile_example :
    has_control (prepared_fix (prepared_of "tx\u{200b}1" 1000)).sql ≡ true
prepared_fix-hostile_example =
    prepared_fix-hostile (prepared_of "tx\u{200b}1" 1000) no_controls some_format

two_largest-parts_example :
    (seconds (two_largest (parts 90061)) ≤ 90061)
    × (90061 < seconds (two_largest (parts 90061)) + last_unit (two_largest (parts 90061)))
two_largest-parts_example = two_largest-parts 90061

ascii_tables : AsciiTables ⦃u = ascii⦄
ascii_tables r below accepted = ground (arith, below, accepted)

read_word-shell_word_example :
    read_word bare_word (shell_word ⦃u = ascii⦄ "it's $(x)") ≡ some "it's $(x)"
read_word-shell_word_example = read_word-shell_word ⦃u = ascii⦄ ascii_tables "it's $(x)"

read_quoted_value-quote_example :
    read_quoted_value (quote "a' host='b" ++ " port='1'") ≡ some ("a' host='b", " port='1'")
read_quoted_value-quote_example = read_quoted_value-quote "a' host='b" " port='1'"

-- A timeout of one nanosecond.
timeout_millis-least_example :
    (ms : ℕ) × (timeout_millis (pos 1) ≡ pos ms)
    × (0 < ms)
    × (1 ≤ ms * 1000000)
    × (ms * 1000000 < 1 + 1000000)
timeout_millis-least_example = timeout_millis-least 1 (omega arith) (omega arith)
