-- ===== src/Rule/Cluster/Laws.antt =====
-- internal/rule/cluster.go: what each judgement of Cluster flags.
use kbdiag.Prelude.{
  length, count, map, select, Bool, true, false, String, none, some, List, [], ◌∷◌, ◌&&◌, ◌||◌, not,
  any, str_eq, ◌≡◌, refl, arith,
}
use kbdiag.Unicode.{Unicode}
use kbdiag.Facts.Base.{Status}
use kbdiag.Facts.Inst.{InstDownstreams}
use kbdiag.Facts.Cluster.{ClusterNode, ClusterNodes, ClusterSync, ClusterSyncs}
use kbdiag.Rule.Base.{collected}
use kbdiag.Rule.Verdicts.{is_fail, is_warn}
use kbdiag.Rule.Loops.{warns, fails}
use kbdiag.Rule.Inst.Laws.{is_collected}
use kbdiag.Rule.Cluster.{
  attached, is_sync_mode, has_names, primaries_finding, judge_node, inactive_finding, judge_role,
  mismatch_finding, judge_follower, detached_finding, sync_degraded, degraded_finding, degraded_of,
}

pub length-map {ℓ} : {A B : Type ℓ} (f : A → B) (xs : List A) → length (map f xs) ≡ length xs
length-map f [] = refl
length-map f (x ∷ xs) = ground (arith, length-map f xs)

pub length-select {ℓ} :
    {A : Type ℓ} (p : A → Bool) (xs : List A) → length (select p xs) ≡ count p xs
length-select p [] = refl
length-select p (x ∷ xs) = ground (arith, length-select p xs)

-- The role that repmgr's metadata names is one that the database can have, and not its role.
abbrev pub is_mismatch : ClusterNode → String → Bool
is_mismatch x role =
    (str_eq x.type "primary" || str_eq x.type "standby") && not (str_eq x.type role)

module _ (F : Type 0) where
  pub judge_node-levels :
      (x : ClusterNode)
      → (warns (judge_node {F = F} x) ≡ not x.active) × (fails (judge_node {F = F} x) ≡ false)
  unfolding judge_node inactive_finding
  judge_node-levels x = ground arith

  pub judge_role-levels :
      (x : ClusterNode) (role : String)
      → (warns (judge_role {F = F} x role) ≡ is_mismatch x role)
        × (fails (judge_role {F = F} x role) ≡ false)
  unfolding judge_role mismatch_finding
  judge_role-levels x role = ground arith

  pub primaries-levels :
      (ps : List String)
      → (is_warn (primaries_finding {F = F} ps) ≡ true)
        × (is_fail (primaries_finding {F = F} ps) ≡ false)
  unfolding primaries_finding
  primaries-levels ps = (refl, refl)

module _ ⦃u : Unicode⦄ where
  -- The one row of the settings asks for a synchronous mode, and no standby names are set.
  abbrev pub is_degraded : List ClusterSync → Bool
  is_degraded [] = false
  is_degraded (s ∷ t ∷ rest) = false
  is_degraded (s ∷ []) = elim s.synchronous [
    | none ↦ false
    | some mode ↦ is_sync_mode mode && not (has_names s.standby_names)
  ]

module _ (F : Type 0) ⦃u : Unicode⦄ where
  pub judge_follower-levels :
      (d : InstDownstreams) (local x : ClusterNode)
      → (warns (judge_follower {F = F} d local x) ≡ not (attached d x.node_name))
        × (fails (judge_follower {F = F} d local x) ≡ false)
  unfolding judge_follower detached_finding
  judge_follower-levels d local x = ground arith

  pub degraded_of-levels :
      (s : ClusterSyncs) (n : ClusterNodes) (d : InstDownstreams) (dj : Bool) (local : ClusterNode)
      → (any is_warn (degraded_of {F = F} s n d dj local)
          ≡ (is_collected s.status && is_degraded s.rows))
        × (any is_fail (degraded_of {F = F} s n d dj local) ≡ false)
  unfolding degraded_of sync_degraded degraded_finding collected
  degraded_of-levels s n d dj local = go s.status s.reason s.rows
    where
      go :
          (st : Status) (why : String) (rows : List ClusterSync)
          → let t : ClusterSyncs = record { status = st; reason = why; rows = rows } in
            (any is_warn (degraded_of {F = F} t n d dj local)
              ≡ (is_collected st && is_degraded rows))
            × (any is_fail (degraded_of {F = F} t n d dj local) ≡ false)
      go st why [] = ground arith
      go st why (x ∷ []) = ground arith
      go st why (x ∷ y ∷ rest) = ground arith
