-- ===== src/Rule/Vacuum/Threshold.antt =====
-- internal/rule/vacuum.go: the threshold of VacuumThreshold, as the last option of each name sets it.
use kbdiag.Prelude.{
  Bool, not, ◌&&◌, true, false, String, Option, none, some, List, [], ◌∷◌, str_eq, eq_iff,
  if◌then◌else◌, ◌≡◌, refl, ap, ◌∙◌, arith,
}
use kbdiag.Unicode.{Unicode}
use kbdiag.Facts.Vacuum.{VacuumTable, VacuumSetting}
use kbdiag.Rule.Names.Booleans.{parse_bool}
use kbdiag.Rule.Vacuum.{
  Singles, Limits, cut_equals, or_else, set_option, set_cut, read_option, read_options,
  vacuum_threshold, default_limits,
}

abbrev read_cut {ℓ} :
    {A : Type ℓ} → (String → Option A) → String → Option (String × String) → Option A
read_cut read key none = none
read_cut read key (some p) = if str_eq p.0 key then read p.1 else none

-- The value of an option, where it has this name and the value reads.
abbrev pub read_as {ℓ} : {A : Type ℓ} → (String → Option A) → String → String → Option A
read_as read key o = read_cut read key (cut_equals o)

-- The last one of a list that reads.
abbrev pub last_of {ℓ} : {A : Type ℓ} → (String → Option A) → List String → Option A
last_of f [] = none
last_of f (o ∷ os) = elim (last_of f os) [ some a ↦ some a | none ↦ f o ]

other_name : (a b k : String) → str_eq a b ≡ false → str_eq k a ≡ true → str_eq k b ≡ false
other_name a b k h e = ap (λ x. str_eq x b) ((eq_iff k a).0 e) ∙ h

module _ {F : Type 0} ⦃u : Unicode⦄ ⦃sg : Singles F⦄ where
  -- Autovacuum is on for the table unless its last readable autovacuum_enabled says otherwise.
  abbrev pub is_enabled : VacuumTable F → Bool
  is_enabled t = or_else (last_of (read_as parse_bool "autovacuum_enabled") t.reloptions) true

  -- The base and the factor, of the table or else of the server.
  abbrev pub base_of : VacuumTable F → VacuumSetting F → F
  base_of t s =
      or_else (last_of (read_as sg.parse "autovacuum_vacuum_threshold") t.reloptions)
        (sg.single_int s.threshold)

  abbrev pub factor_of : VacuumTable F → VacuumSetting F → F
  factor_of t s =
      or_else (last_of (read_as sg.parse "autovacuum_vacuum_scale_factor") t.reloptions)
        (sg.single s.scale_factor)

  -- base + factor × reltuples
  abbrev pub limit_of : VacuumTable F → VacuumSetting F → F
  limit_of t s = sg.plus (base_of t s) (sg.times (factor_of t s) t.reltuples)

  -- Autovacuum or track_counts is off for the server.
  abbrev pub is_stopped : VacuumSetting F → Bool
  is_stopped set = not (str_eq set.autovacuum "on" && str_eq set.track_counts "on")

  set_option-fields :
      (l : Limits F) (o : String)
      → ((read_option l o).on ≡ or_else (read_as parse_bool "autovacuum_enabled" o) l.on)
        × ((read_option l o).base
            ≡ or_else (read_as sg.parse "autovacuum_vacuum_threshold" o) l.base)
        × ((read_option l o).factor
            ≡ or_else (read_as sg.parse "autovacuum_vacuum_scale_factor" o) l.factor)
  unfolding read_option set_option
  set_option-fields l o = go (cut_equals o)
    where
      go :
          (c : Option (String × String))
          → ((set_cut l c).on ≡ or_else (read_cut parse_bool "autovacuum_enabled" c) l.on)
            × ((set_cut l c).base
                ≡ or_else (read_cut sg.parse "autovacuum_vacuum_threshold" c) l.base)
            × ((set_cut l c).factor
                ≡ or_else (read_cut sg.parse "autovacuum_vacuum_scale_factor" c) l.factor)
      go none = (refl, refl, refl)
      go (some (k, v)) = ground (
        arith,
        other_name "autovacuum_enabled" "autovacuum_vacuum_threshold" k refl,
        other_name "autovacuum_enabled" "autovacuum_vacuum_scale_factor" k refl,
        other_name "autovacuum_vacuum_threshold" "autovacuum_vacuum_scale_factor" k refl,
      )

  read_options-last :
      {A : Type 0} (get : Limits F → A) (f : String → Option A)
      → ((l : Limits F) (o : String) → get (read_option l o) ≡ or_else (f o) (get l))
      → (l : Limits F) (os : List String) → get (read_options l os) ≡ or_else (last_of f os) (get l)
  unfolding read_options
  read_options-last get f step l [] = refl
  read_options-last get f step l (o ∷ os) =
      ground (arith, step l o, read_options-last get f step (read_option l o) os)

  -- VacuumThreshold takes each limit from the last storage option of its name that reads, and from
  -- the server's setting where there is none.
  pub vacuum_threshold-parts :
      (t : VacuumTable F) (s : VacuumSetting F)
      → ((vacuum_threshold t s).0 ≡ limit_of t s) × ((vacuum_threshold t s).1 ≡ is_enabled t)
  unfolding vacuum_threshold default_limits
  vacuum_threshold-parts t s =
      let l = default_limits s in
      ground (
        arith,
        read_options-last (λ m. m.on) (read_as parse_bool "autovacuum_enabled")
            (λ m o. (set_option-fields m o).0) l t.reloptions,
        read_options-last (λ m. m.base) (read_as sg.parse "autovacuum_vacuum_threshold")
            (λ m o. (set_option-fields m o).1) l t.reloptions,
        read_options-last (λ m. m.factor) (read_as sg.parse "autovacuum_vacuum_scale_factor")
            (λ m o. (set_option-fields m o).2) l t.reloptions,
      )
