-- ===== src/Rule/Space/Full.antt =====
-- internal/rule/space.go: the verdict of Space.
use kbdiag.Prelude.{
  ℤ, pos, ltb_ℤ, Bool, true, false, Option, none, some, Option-cases, inl, inr, List, [], ◌∷◌, ◌++◌,
  ◌&&◌, ◌||◌, not, any, ◌≡◌, refl, arith,
}
use kbdiag.Facts.Base.{Floats}
use kbdiag.Facts.Inst.{InstDatabases, databases_redacted}
use kbdiag.Facts.Space.{Mount, SpaceTablespaces, SpaceWal, SpaceDisk, tablespaces_redacted}
use kbdiag.Rule.Base.{verdict_of, collected, findings_of}
use kbdiag.Rule.Verdicts.{level_verdict, verdict_of_levels}
use kbdiag.Rule.Inst.{is_nil}
use kbdiag.Rule.Space.{
  Filesystem, group_mounts, judge_filesystem, segment, space, space_result, display,
  is_not_applicable,
}

-- Free space below one WAL segment, whose size is positive.
abbrev pub is_full : ℤ → Filesystem → Bool
is_full seg f = ltb_ℤ (pos 0) seg && ltb_ℤ (pos f.disk.avail_bytes) seg

-- Some filesystem is full, by the segment size that was collected.
abbrev pub some_full : Option ℤ → List Filesystem → Bool
some_full none fs = false
some_full (some seg) fs = any (is_full seg) fs

-- Something that the command displays was not read.
abbrev pub is_partial : InstDatabases → SpaceTablespaces → SpaceWal → SpaceDisk → Bool
is_partial d t w disk =
    not (is_nil (databases_redacted d ++ tablespaces_redacted t))
    || is_not_applicable disk.status
    || any (λ st. (collected st).1) (d.status ∷ t.status ∷ w.status ∷ disk.status ∷ [])

module _ (F : Type 0) ⦃fl : Floats F⦄ where
  is_nil-findings :
      (seg : ℤ) (fs : List Filesystem)
      → is_nil (findings_of (judge_filesystem {F = F} seg) fs) ≡ not (any (is_full seg) fs)
  unfolding findings_of judge_filesystem
  is_nil-findings seg [] = refl
  is_nil-findings seg (f ∷ fs) = ground (arith, is_nil-findings seg fs)

  all_read : (partial : Bool) → verdict_of {F = F} [] partial ≡ level_verdict false false partial
  all_read partial = verdict_of_levels {F = F} [] partial

  -- Without mounts there is no filesystem.
  no_mounts : (rows : List Mount) → is_nil rows ≡ true → group_mounts rows [] ≡ []
  unfolding group_mounts
  no_mounts [] h = refl
  no_mounts (m ∷ rows) h = ground (arith, h)

  -- The space rule says FAIL exactly when a filesystem of the data directory or the WAL has less
  -- free than one WAL segment of the size that was collected, else UNKNOWN when something of what
  -- it displays was not read, and else OK.
  pub space-verdict :
      (d : InstDatabases) (t : SpaceTablespaces) (w : SpaceWal) (disk : SpaceDisk)
      → (space {F = F} d t w disk).verdict
        ≡ level_verdict
            (some_full (segment w) (group_mounts disk.rows []))
            false
            (is_partial d t w disk)
  unfolding space space_result display
  space-verdict d t w disk = elim (Option-cases (segment w)) [
    | inl unset ↦ ground (arith, unset, all_read (is_partial d t w disk), no_mounts disk.rows)
    | inr (seg, set) ↦ ground (
      arith,
      set,
      all_read (is_partial d t w disk),
      no_mounts disk.rows,
      is_nil-findings seg (group_mounts disk.rows []),
    )
  ]
