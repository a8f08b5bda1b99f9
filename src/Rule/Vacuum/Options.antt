-- ===== src/Rule/Vacuum/Options.antt =====
-- internal/rule/vacuum.go: what VacuumThreshold makes of a table's storage options.
use Prim.Native.String.{◌++◌}
use kbdiag.Prelude.{◌==◌, false, String, some, List, [], ◌∷◌, ◌≡◌, refl, ap, arith}
use mathlib.Core.List.{◌++◌ as ◌+++◌}
use text.Mathlib.TextLemmas.{cons-append, nil-append}
use kbdiag.Unicode.{Unicode}
use kbdiag.Facts.Vacuum.{VacuumTable, VacuumSetting}
use kbdiag.Rule.Names.{any_char}
use kbdiag.Rule.Names.Booleans.{parse_bool}
use kbdiag.Rule.Vacuum.{
  Singles, Limits, cut_equals, or_else, set_option, set_cut, read_option, read_options,
  vacuum_threshold, default_limits,
}

-- A storage option as the server stores it.
abbrev pub option_text : String → String → String
option_text k v = k ++ ("=" ++ v)

-- A name without an equals sign is cut off whole.
pub cut_equals-append :
    (k v : String)
    → any_char (λ r. r == b'=') k ≡ false
    → cut_equals (option_text k v) ≡ some (k, v)
unfolding cut_equals
cut_equals-append String.[] v h = rw nil-append (rw cons-append (rw nil-append refl))
cut_equals-append (String.◌∷◌ c k) v h = rw cons-append (ground (arith, cut_equals-append k v))

module _ {F : Type 0} ⦃u : Unicode⦄ ⦃sg : Singles F⦄ where
  pub read_options-append :
      (l : Limits F) (os ps : List String)
      → read_options l (os +++ ps) ≡ read_options (read_options l os) ps
  unfolding read_options
  read_options-append l [] ps = refl
  read_options-append l (o ∷ os) ps = read_options-append (read_option l o) os ps

  read_option-cut :
      (l : Limits F) (o k v : String)
      → cut_equals o ≡ some (k, v)
      → read_option l o ≡ set_option l k v
  unfolding read_option
  read_option-cut l o k v h = ap (set_cut l) h

  enabled-option :
      (l : Limits F) (v : String)
      → read_option l (option_text "autovacuum_enabled" v)
        ≡ record l { on = or_else (parse_bool v) l.on }
  unfolding set_option set_cut
  enabled-option l v =
      read_option-cut l (option_text "autovacuum_enabled" v) "autovacuum_enabled" v
        (cut_equals-append "autovacuum_enabled" v refl)

  -- The option autovacuum_enabled, added after a table's other options, decides whether autovacuum is
  -- on for the table when its value reads as a Boolean, and changes nothing when it does not; the
  -- threshold of dead tuples stays the same.
  pub vacuum_threshold-enabled :
      (t : VacuumTable F) (s : VacuumSetting F) (v : String)
      → vacuum_threshold
          (record t { reloptions = t.reloptions +++ (option_text "autovacuum_enabled" v ∷ []) })
          s
        ≡ ((vacuum_threshold t s).0, or_else (parse_bool v) (vacuum_threshold t s).1)
  unfolding vacuum_threshold
  vacuum_threshold-enabled t s v =
      let l = read_options (default_limits s) t.reloptions in
      rw
        (read_options-append (default_limits s) t.reloptions
          (option_text "autovacuum_enabled" v ∷ []))
        (rw (read_options, read_options, enabled-option l v) refl)
