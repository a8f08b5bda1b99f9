-- ===== src/Report/Laws.antt =====
-- internal/report/report.go: what AddProbe keeps of the rows, and the map of probes.
use kbdiag.Prelude.{
  ℕ, zero, suc, ◌-◌, ℤ, pos, pos_part, ltb_ℤ, String, false, some, List, [], ◌∷◌, ◌++◌, length,
  drop, str_eq, min, length-take, take-append-drop, ◌≡◌, refl, arith, if◌then◌else◌, append-nil,
  eq_iff,
}
use kbdiag.Facts.Base.{Status, Value}
use kbdiag.Report.{Probe, Report, probe_of, add_probe, set_probe, get_probe, is_collected, is_cut}

-- How many rows are shown: all, or the limit where it is positive and less.
abbrev pub shown_length : ℕ → ℤ → ℕ
shown_length n limit = if ltb_ℤ (pos 0) limit then min (pos_part limit) n else n

module _ {F : Type 0} where
  -- A cut keeps the first rows, as many as the limit says; without one all are kept.
  abbrev pub left_out : List (List (Value F)) → ℤ → List (List (Value F))
  left_out rows limit = if is_cut rows limit then drop (pos_part limit) rows else []

  probe_of-append :
      (reason : String) (cols : List String) (rows : List (List (Value F))) (limit : ℤ)
      → (probe_of Status.ok reason cols rows limit).rows ++ left_out rows limit ≡ rows
  unfolding probe_of
  probe_of-append reason cols rows limit =
      ground (arith, take-append-drop (pos_part limit) rows, append-nil rows)

  length-drop : (n : ℕ) (xs : List (List (Value F))) → length (drop n xs) ≡ length xs - n
  length-drop zero xs = omega arith
  length-drop (suc n) [] = omega arith
  length-drop (suc n) (x ∷ xs) = omega (arith, length-drop n xs)

  probe_of-truncated :
      (reason : String) (cols : List String) (rows : List (List (Value F))) (limit : ℤ)
      → (probe_of Status.ok reason cols rows limit).truncated ≡ length (left_out rows limit)
  unfolding probe_of
  probe_of-truncated reason cols rows limit = ground (arith, length-drop (pos_part limit) rows)

  probe_of-length :
      (reason : String) (cols : List String) (rows : List (List (Value F))) (limit : ℤ)
      → length (probe_of Status.ok reason cols rows limit).rows ≡ shown_length (length rows) limit
  unfolding probe_of
  probe_of-length reason cols rows limit = ground (arith, length-take (pos_part limit) rows)

  -- Of the rows that were read a probe shows the first ones, as many as the limit says where it
  -- is positive and all where it is not, and `truncated` counts the others. A probe that was not
  -- collected shows no row and counts none.
  pub probe_of-rows :
      (reason : String) (cols : List String) (rows : List (List (Value F))) (limit : ℤ)
      → ((st : Status)
          → is_collected st ≡ false
          → ((probe_of st reason cols rows limit).rows ≡ [])
            × ((probe_of st reason cols rows limit).truncated ≡ 0))
        × ((rest : List (List (Value F))) × ((probe_of Status.ok reason cols rows limit).rows
                ++ rest
              ≡ rows)
            × ((probe_of Status.ok reason cols rows limit).truncated ≡ length rest)
            × (length (probe_of Status.ok reason cols rows limit).rows
                ≡ shown_length (length rows) limit))
  probe_of-rows reason cols rows limit = (
    (λ st h. unfold probe_of in ground (arith, h)),
    (
      left_out rows limit,
      probe_of-append reason cols rows limit,
      probe_of-truncated reason cols rows limit,
      probe_of-length reason cols rows limit,
    ),
  )

  get-set_probe :
      (i j : String) (p : Probe F) (ps : List (String × Probe F))
      → get_probe j (set_probe i p ps) ≡ (if str_eq i j then some p else get_probe j ps)
  get-set_probe i j p [] = refl
  get-set_probe i j p ((k, q) ∷ ps) =
      ground (arith, get-set_probe i j p ps, eq_iff k i, eq_iff k j, eq_iff i j)

  -- AddProbe: the probe can be read back under its id as it was recorded, the probes of the
  -- other ids stay as they were, and so do the verdict, the findings and the redactions.
  pub get_probe-add_probe :
      (id j : String) (st : Status) (reason : String) (cols : List String)
      → (rows : List (List (Value F))) (limit : ℤ) (r : Report F)
      → (get_probe j (add_probe id st reason cols rows limit r).probes ≡ (
          if str_eq id j then some (probe_of st reason cols rows limit) else get_probe j r.probes))
        × ((add_probe id st reason cols rows limit r).verdict ≡ r.verdict)
        × ((add_probe id st reason cols rows limit r).findings ≡ r.findings)
        × ((add_probe id st reason cols rows limit r).redacted ≡ r.redacted)
  unfolding add_probe
  get_probe-add_probe id j st reason cols rows limit r =
      (get-set_probe id j (probe_of st reason cols rows limit) r.probes, refl, refl, refl)
