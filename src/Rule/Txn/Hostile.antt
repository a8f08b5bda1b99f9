-- ===== src/Rule/Txn/Hostile.antt =====
-- internal/rule/txn.go: the fix of a prepared transaction whose gid has characters that the text
-- report shows escaped.
use Prim.Native.String.{◌++◌}
use kbdiag.Prelude.{true, false, concat, ◌≡◌, refl, arith}
use kbdiag.Facts.Txn.{Prepared}
use kbdiag.Rule.Names.{any_char, replace_char, is_control, is_format, is_hostile, has_control}
use kbdiag.Rule.Names.Chars.{any_char-append, replace_char-keeps, any_char-hostile}
use kbdiag.Rule.Txn.{prepared_fix}

-- Of a gid that has format characters but no control characters, the fix is SQL to paste that
-- the text report shows escaped: the test of the rule asks for control characters only, where the
-- report also escapes format characters.
pub prepared_fix-hostile :
    {F T : Type 0} (x : Prepared F T)
    → any_char is_control x.gid ≡ false
    → any_char is_format x.gid ≡ true
    → has_control (prepared_fix x).sql ≡ true
unfolding prepared_fix has_control concat
prepared_fix-hostile x plain format =
    let quote_plain : is_hostile b'\'' ≡ false =
      unfold is_hostile in unfold is_control in unfold is_format in refl in
    let quoted = replace_char b'\'' "''" x.gid in
    ground (
      arith,
      plain,
      format,
      any_char-hostile x.gid,
      replace_char-keeps is_hostile b'\'' "''" x.gid quote_plain (ground (arith, quote_plain)),
      any_char-append is_hostile "ROLLBACK PREPARED '" (quoted ++ ("'" ++ "")),
      any_char-append is_hostile quoted ("'" ++ ""),
    )
