-- ===== src/Rule/Cluster/Health.antt =====
-- internal/rule/cluster.go: the verdict of Cluster.
use kbdiag.Prelude.{
  ltb, length, count, map, select, Bool, true, false, String, Option, none, some, List, [], ◌∷◌,
  ◌++◌, ◌&&◌, ◌||◌, not, any, any-append, str_eq, ◌≡◌, refl, arith, if◌then◌else◌,
}
use kbdiag.Unicode.{Unicode}
use kbdiag.Facts.Base.{Status}
use kbdiag.Facts.Inst.{InstDownstreams}
use kbdiag.Facts.Cluster.{ClusterNode, ClusterNodes, ClusterSyncs}
use kbdiag.Rule.Base.{Verdict, Finding, Result, verdict_of, collected, findings_of, judged}
use kbdiag.Rule.Verdicts.{level_verdict, verdict_of_levels, is_fail, is_warn}
use kbdiag.Rule.Loops.{
  warns, fails, any-fail-findings_of, any-warn-findings_of, any-cong, any-false,
}
use kbdiag.Rule.Inst.{finding_of}
use kbdiag.Rule.Inst.Laws.{is_collected, is_unread, any-fail-finding_of, any-warn-finding_of}
use kbdiag.Rule.Cluster.{
  cluster, cluster_primary, local_node, followers, attached, is_active_primary, primaries_finding,
  judge_node, judge_role, judge_follower, degraded_of,
}
use kbdiag.Rule.Cluster.Laws.{
  length-map, length-select, is_mismatch, is_degraded, judge_node-levels, judge_role-levels,
  primaries-levels, judge_follower-levels, degraded_of-levels,
}

-- More than one active primary, or an inactive node.
abbrev pub is_broken : List ClusterNode → Bool
is_broken rows = ltb 1 (count is_active_primary rows) || any (λ x. not x.active) rows

-- A primary in the database's view and in repmgr's.
abbrev pub is_primary : ClusterNode → String → Bool
is_primary x role = str_eq role "primary" && str_eq x.type "primary"

module _ (F : Type 0) where
  abbrev node_findings : List ClusterNode → List (Finding F)
  node_findings rows =
      let primaries = map (λ x. x.node_name) (select is_active_primary rows) in
      (if ltb 1 (length primaries) then primaries_finding primaries ∷ [] else [])
      ++ findings_of judge_node rows

  node_findings-levels :
      (rows : List ClusterNode)
      → (any is_warn (node_findings rows) ≡ is_broken rows)
        × (any is_fail (node_findings rows) ≡ false)
  node_findings-levels rows =
      let names = map (λ (x : ClusterNode). x.node_name) (select is_active_primary rows) in
      let split : List (Finding F) =
        if ltb 1 (length names) then primaries_finding names ∷ [] else [] in
      ground (
        arith,
        length-map (λ (x : ClusterNode). x.node_name) (select is_active_primary rows),
        length-select is_active_primary rows,
        primaries-levels F names,
        any-append is_warn split (findings_of judge_node rows),
        any-append is_fail split (findings_of judge_node rows),
        any-warn-findings_of (judge_node {F = F}) rows,
        any-fail-findings_of (judge_node {F = F}) rows,
        any-cong (λ x. warns (judge_node {F = F} x)) (λ x. not x.active) rows
            (λ x. (judge_node-levels F x).0),
        any-false (judge_node {F = F}) (λ x. fails (judge_node {F = F} x)) rows
            (λ x. (judge_node-levels F x).1),
      )

module _ ⦃u : Unicode⦄ where
  -- An active standby of the node that no walsender here is named after.
  abbrev pub some_detached : ClusterNodes → InstDownstreams → ClusterNode → Bool
  some_detached n d local = any (λ x. not (attached d x.node_name)) (followers n local.node_id)

  -- The verdict of Cluster on a primary.
  unfoldable pub primary_verdict :
      ClusterNodes → InstDownstreams → ClusterSyncs → ClusterNode → Bool → Bool → Verdict
  primary_verdict n d s local warning unseen =
      level_verdict false
        (warning
          || is_collected s.status && is_degraded s.rows
          || is_collected d.status && some_detached n d local)
        (unseen || is_unread s.status || is_unread d.status)

  -- What the verdict of the cluster rule is, once the nodes were collected.
  unfoldable pub nodes_verdict :
      ClusterNodes → InstDownstreams → ClusterSyncs → String → Option ClusterNode → Verdict
  unfolding primary_verdict
  nodes_verdict n d s role none = level_verdict false (is_broken n.rows) true
  nodes_verdict n d s role (some local) =
      if is_primary local role
      then primary_verdict n d s local (is_broken n.rows || is_mismatch local role) false
      else level_verdict false (is_broken n.rows || is_mismatch local role) false

  -- What the verdict of the cluster rule is, by the status of the nodes' probe.
  unfoldable pub cluster_verdict :
      ClusterNodes → InstDownstreams → ClusterSyncs → String → Status → Verdict
  unfolding nodes_verdict
  cluster_verdict n d s role Status.ok = nodes_verdict n d s role (local_node n.rows)
  cluster_verdict n d s role Status.not_applicable = Verdict.ok
  cluster_verdict n d s role _ = Verdict.unknown

module _ (F : Type 0) ⦃u : Unicode⦄ where
  warns_of :
      (fs : List (Finding F)) (u v w : Bool)
      → any is_fail fs ≡ false
      → any is_warn fs ≡ w
      → u ≡ v
      → verdict_of fs u ≡ level_verdict false w v
  warns_of fs u v w h k e = cc (verdict_of_levels fs u, h, k, e)

  away-levels :
      (n : ClusterNodes) (d : InstDownstreams) (local : ClusterNode)
      → let away = findings_of (judge_follower {F = F} d local) (followers n local.node_id) in
        (any is_warn away ≡ some_detached n d local) × (any is_fail away ≡ false)
  away-levels n d local =
      let judge = judge_follower {F = F} d local in
      let xs = followers n local.node_id in
      (
        cc (
          any-warn-findings_of judge xs,
          any-cong (λ x. warns (judge x)) (λ x. not (attached d x.node_name)) xs
              (λ x. (judge_follower-levels F d local x).0),
        ),
        cc (
          any-fail-findings_of judge xs,
          any-false judge (λ x. fails (judge x)) xs (λ x. (judge_follower-levels F d local x).1),
        ),
      )

  -- The verdict of the findings, whichever of the two lists it is: `near` is of walsenders read.
  near-verdict :
      (n : ClusterNodes) (d : InstDownstreams) (s : ClusterSyncs) (dj : Bool) (local : ClusterNode)
      → (fs : List (Finding F)) (u : Bool) → any is_fail fs ≡ false
      → verdict_of
          (fs
            ++ findings_of (judge_follower d local) (followers n local.node_id)
            ++ degraded_of s n d dj local)
          u
        ≡ level_verdict false
            (any is_warn fs
              || is_collected s.status && is_degraded s.rows
              || some_detached n d local)
            u
  near-verdict n d s dj local fs u h =
      let degraded = degraded_of {F = F} s n d dj local in
      let away = findings_of (judge_follower {F = F} d local) (followers n local.node_id) in
      let (aw, af) = away-levels n d local in
      let (dw, df) = degraded_of-levels F s n d dj local in
      warns_of (fs ++ away ++ degraded) u u _
        (ground
          (arith, h, af, df, any-append is_fail (fs ++ away) degraded, any-append is_fail fs away))
        (ground
          (arith, aw, dw, any-append is_warn (fs ++ away) degraded, any-append is_warn fs away))
        refl

  far-verdict :
      (n : ClusterNodes) (d : InstDownstreams) (s : ClusterSyncs) (dj : Bool) (local : ClusterNode)
      → (fs : List (Finding F)) (u : Bool) → any is_fail fs ≡ false
      → verdict_of (fs ++ degraded_of s n d dj local) u
        ≡ level_verdict false (any is_warn fs || is_collected s.status && is_degraded s.rows) u
  far-verdict n d s dj local fs u h =
      let degraded = degraded_of {F = F} s n d dj local in
      let (dw, df) = degraded_of-levels F s n d dj local in
      warns_of (fs ++ degraded) u u _ (ground (arith, h, df, any-append is_fail fs degraded))
        (ground (arith, dw, any-append is_warn fs degraded)) refl

  cluster_primary-verdict :
      (n : ClusterNodes) (d : InstDownstreams) (s : ClusterSyncs) (local : ClusterNode)
      → (fs : List (Finding F)) (unseen : Bool) → any is_fail fs ≡ false
      → (cluster_primary n d s local fs unseen).verdict
        ≡ primary_verdict n d s local (any is_warn fs) unseen
  unfolding cluster_primary
  cluster_primary-verdict n d s local fs unseen h =
      let us = unseen || (collected s.status).1 in
      let (dj, du) = collected d.status in
      let near = near-verdict n d s dj local fs us h in
      let far = far-verdict n d s dj local fs (us || du) h in
      unfold collected in unfold primary_verdict in ground (arith, near, far)

  primary_or_not :
      (n : ClusterNodes) (d : InstDownstreams) (s : ClusterSyncs) (role : String)
      → (local : ClusterNode) (gs : List (Finding F)) → any is_fail gs ≡ false
      → any is_warn gs ≡ (is_broken n.rows || is_mismatch local role)
      → (if not (str_eq role "primary") || not (str_eq local.type "primary")
          then judged gs false
          else cluster_primary n d s local gs false).verdict
        ≡ nodes_verdict n d s role (some local)
  unfolding nodes_verdict
  primary_or_not n d s role local gs h k =
      let warn = is_broken n.rows || is_mismatch local role in
      let on_primary : (cluster_primary n d s local gs false).verdict
          ≡ primary_verdict n d s local warn false =
        cc (cluster_primary-verdict n d s local gs false h, k) in
      let elsewhere = warns_of gs false false warn h k refl in ground (arith, on_primary, elsewhere)

  node_verdict_here :
      (n : ClusterNodes) (d : InstDownstreams) (s : ClusterSyncs) (role : String)
      (o : Option ClusterNode)
      → let fs = node_findings F n.rows in
        (elim o as (λ _. Result F) [
          | none ↦ judged fs true
          | some local ↦
              if not (str_eq role "primary") || not (str_eq local.type "primary")
              then judged (fs ++ finding_of (judge_role local role)) false
              else cluster_primary n d s local (fs ++ finding_of (judge_role local role)) false
        ]).verdict
        ≡ nodes_verdict n d s role o
  node_verdict_here n d s role none =
      let (w, f) = node_findings-levels F n.rows in
      unfold nodes_verdict in
      warns_of (node_findings F n.rows) true true (is_broken n.rows) f w refl
  node_verdict_here n d s role (some local) =
      let fs = node_findings F n.rows in
      let role_finding = finding_of (judge_role {F = F} local role) in
      let (rw_, rf) = judge_role-levels F local role in
      let (w, f) = node_findings-levels F n.rows in
      primary_or_not n d s role local (fs ++ role_finding)
        (cc (
          any-append is_fail fs role_finding,
          any-fail-finding_of (judge_role {F = F} local role),
          rf,
          f,
        ))
        (cc (
          any-append is_warn fs role_finding,
          any-warn-finding_of (judge_role {F = F} local role),
          rw_,
          w,
        ))

  pub cluster-verdict :
      (n : ClusterNodes) (d : InstDownstreams) (s : ClusterSyncs) (role : String)
      → (cluster {F = F} n d s role).verdict ≡ cluster_verdict n d s role n.status
  unfolding cluster collected cluster_verdict
  cluster-verdict n d s role = go n.status n.reason n.rows
    where
      go :
          (st : Status) (why : String) (rows : List ClusterNode)
          → (cluster {F = F} (record { status = st; reason = why; rows = rows }) d s role).verdict
            ≡ cluster_verdict (record { status = st; reason = why; rows = rows }) d s role st
      go Status.ok why rows =
          node_verdict_here (record { status = Status.ok; reason = why; rows = rows }) d s role
            (local_node rows)
      go Status.not_applicable why rows = verdict_of_levels {F = F} [] false
      go Status.skipped why rows = verdict_of_levels {F = F} [] true
      go Status.error why rows = verdict_of_levels {F = F} [] true
