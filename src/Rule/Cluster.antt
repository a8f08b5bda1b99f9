-- ===== src/Rule/Cluster.antt =====
-- internal/rule/cluster.go
pub mod Laws
pub mod Health
use kbdiag.Prelude.{
  ℕ, ℤ, eqb_ℤ, length, ltb, Bool, true, false, String, Option, none, some, List, [], ◌∷◌, ◌++◌,
  ◌&&◌, ◌||◌, not, map, select, concat, join, show_ℕ, str_eq, if◌then◌else◌,
}
use kbdiag.Unicode.{Unicode}
use kbdiag.Facts.Base.{int, str, strs, bool}
use kbdiag.Facts.Inst.{Downstream, InstDownstreams}
use kbdiag.Facts.Cluster.{
  ClusterNode, ClusterNodes, ClusterSync, ClusterSyncs, cluster_nodes_id, cluster_sync_id,
}
use kbdiag.Rule.Base.{
  Level, Finding, Result, Next, Seen, hidden, quiet, flagged, verify, judged, collected,
  findings_of,
}
use kbdiag.Rule.Inst.{is_nil, finding_of}

abbrev pub is_active_primary : ClusterNode → Bool
is_active_primary x = x.active && str_eq x.type "primary"

-- The last row that is local: each one overwrites the one before.
unfoldable pub local_node : List ClusterNode → Option ClusterNode
local_node [] = none
local_node (x ∷ xs) = elim (local_node xs) [
  | some y ↦ some y
  | none ↦ if x.is_local then some x else none
]

abbrev pub is_upstream : Option ℤ → ℤ → Bool
is_upstream none id = false
is_upstream (some n) id = eqb_ℤ n id

-- Followers
unfoldable pub followers : ClusterNodes → ℤ → List ClusterNode
followers n id =
    select (λ x. x.active && str_eq x.type "standby" && is_upstream x.upstream_node_id id) n.rows

module _ ⦃u : Unicode⦄ where
  abbrev pub is_named : Option String → String → Bool
  is_named none name = false
  is_named (some a) name = u.equal_fold a name

  -- The loop of Attached.
  unfoldable pub attached_in : List Downstream → String → Bool
  attached_in [] name = false
  attached_in (r ∷ rs) name =
      let rest = attached_in rs name in if is_named r.application_name name then true else rest

  -- Attached
  unfoldable pub attached : InstDownstreams → String → Bool
  attached d name = attached_in d.rows name

  -- SyncModes[strings.ToLower(*s.Synchronous)]
  abbrev pub is_sync_mode : String → Bool
  is_sync_mode mode =
      let lower = u.to_lower mode in
      str_eq lower "sync" || str_eq lower "quorum" || str_eq lower "all"

  -- s.StandbyNames != nil && strings.TrimSpace(*s.StandbyNames) != ""
  abbrev pub has_names : Option String → Bool
  has_names none = false
  has_names (some s) = not (str_eq (u.trim_space s) "")

  -- The node names of the followers that are not attached.
  unfoldable pub away : ClusterNodes → InstDownstreams → ℤ → List String
  unfolding followers
  away n d id = map (λ x. x.node_name) (select (λ x. not (attached d x.node_name)) (followers n id))

module _ {F : Type 0} where
  unfoldable pub primaries_finding : List String → Finding F
  primaries_finding primaries = record {
    id = "cluster.primaries";
    level = Level.warn;
    symptom = concat (
        "repmgr lists "
        ∷ show_ℕ (length primaries)
        ∷ " active primaries ("
        ∷ join ", " primaries
        ∷ "): its metadata says split brain; whether both accept writes shows only on each node"
        ∷ []);
    evidence =
        (record { probe_id = cluster_nodes_id; fields = ("primaries", strs primaries) ∷ [] }) ∷ [];
    cause = none;
    next = verify "kbdiag status" "run on each of them: which one is out of recovery" ∷ [];
  }

  unfoldable pub inactive_finding : ClusterNode → Finding F
  inactive_finding x = record {
    id = "cluster.inactive";
    level = Level.warn;
    symptom = concat (
        "repmgr marks " ∷ x.type ∷ " node " ∷ x.node_name
        ∷ " inactive: it counts it as failed or removed, so the cluster has one node less to fail over to"
        ∷ []);
    evidence =
        (record {
          probe_id = cluster_nodes_id;
          fields =
              ("node_id", int x.node_id)
              ∷ ("node_name", str x.node_name)
              ∷ ("type", str x.type)
              ∷ ("active", bool false)
              ∷ [];
        })
        ∷ [];
    cause = none;
    next =
        verify "kbdiag status"
          (concat ("run on " ∷ x.node_name ∷ ": is it up, and in which role" ∷ []))
        ∷ [];
  }

  unfoldable pub judge_node : ClusterNode → Seen F
  judge_node x = if x.active then quiet else flagged (inactive_finding x)

  unfoldable pub mismatch_finding : ClusterNode → String → Finding F
  mismatch_finding x role = record {
    id = "cluster.role_mismatch";
    level = Level.warn;
    symptom = concat (
        "repmgr says this node (" ∷ x.node_name ∷ ") is a " ∷ x.type ∷ ", but the database is a "
        ∷ role ∷ ": repmgr acts on the wrong role until its metadata is corrected" ∷ []);
    evidence =
        (record {
          probe_id = cluster_nodes_id;
          fields =
              ("node_id", int x.node_id)
              ∷ ("node_name", str x.node_name)
              ∷ ("type", str x.type)
              ∷ ("role", str role)
              ∷ [];
        })
        ∷ [];
    cause = none;
    next = verify "kbdiag repl" "what this node streams to or from" ∷ [];
  }

  -- The role that repmgr names is none of the database's: a witness has none.
  unfoldable pub judge_role : ClusterNode → String → Seen F
  judge_role x role =
      if (str_eq x.type "primary" || str_eq x.type "standby") && not (str_eq x.type role)
      then flagged (mismatch_finding x role)
      else quiet

  unfoldable pub detached_finding : ClusterNode → ClusterNode → Finding F
  detached_finding local x = record {
    id = "cluster.detached";
    level = Level.warn;
    symptom = concat (
        "repmgr lists " ∷ x.node_name ∷ " as an active standby of this node (" ∷ local.node_name
        ∷ "), but no walsender here has that application_name: it is not attached (repmgr cluster show would report it so), unless its conninfo sets another application_name"
        ∷ []);
    evidence =
        (record {
          probe_id = cluster_nodes_id;
          fields =
              ("node_id", int x.node_id)
              ∷ ("node_name", str x.node_name)
              ∷ ("upstream_node_id", int local.node_id)
              ∷ [];
        })
        ∷ [];
    cause = none;
    next =
        verify "kbdiag status"
          (concat ("run on " ∷ x.node_name ∷ ": is it up, is it receiving WAL" ∷ []))
        ∷ verify "kbdiag slots" "whether its slot here is inactive"
        ∷ [];
  }

  unfoldable pub degraded_finding : ClusterSync → String → String → List Next → Finding F
  degraded_finding s mode why next = record {
    id = "cluster.sync_degraded";
    level = Level.warn;
    symptom = concat (
        "repmgr is configured for " ∷ mode ∷ " replication (" ∷ s.conf_path
        ∷ "), but synchronous_standby_names is empty: commits do not wait for any standby, so a failover now can lose committed transactions; "
        ∷ why ∷ []);
    evidence =
        (record {
          probe_id = cluster_sync_id;
          fields =
              ("synchronous", str mode)
              ∷ ("synchronous_standby_names", str "")
              ∷ ("conf_path", str s.conf_path)
              ∷ [];
        })
        ∷ [];
    cause = none;
    next = next;
  }

abbrev pub repl_next : Next
repl_next = verify "kbdiag repl" "which standbys stream and what synchronous_standby_names says"

abbrev pub repmgrd_next : Next
repmgrd_next =
    verify "ps -C repmgrd -o pid,args"
      "repmgrd restores synchronous_standby_names; without it the list stays empty"

-- why and next of syncDegraded: by the standbys that are away, if the walsenders were read.
unfoldable pub degraded_why : Bool → List String → String × List Next
degraded_why false gone = (
  "while a synchronous standby is away repmgrd switches to asynchronous; it switches back when the standby returns",
  repl_next ∷ [],
)
degraded_why true [] = (
  "yet every standby repmgr lists for this node is attached: repmgrd has not switched back yet; it normally does within seconds of the standby returning, so if a second run still shows this, check repmgrd on this node",
  repl_next ∷ repmgrd_next ∷ [],
)
degraded_why true (x ∷ xs) = (
  concat (
      "repmgrd switched to asynchronous because "
      ∷ join ", " (x ∷ xs)
      ∷ " is not attached; it switches back when it returns"
      ∷ []),
  repl_next ∷ [],
)

module _ ⦃u : Unicode⦄ {F : Type 0} where
  -- syncDegraded; `dj` says whether the walsenders were read.
  unfoldable pub sync_degraded :
      ClusterSync → ClusterNodes → InstDownstreams → Bool → ClusterNode → Seen F
  sync_degraded s n d dj local = elim s.synchronous [
    | none ↦ quiet
    | some mode ↦
        let (why, next) = degraded_why dj (away n d local.node_id) in
        if not (is_sync_mode mode) || has_names s.standby_names
        then quiet
        else flagged (degraded_finding s mode why next)
  ]

  -- degraded of Cluster: syncDegraded of the one row, if it was collected.
  unfoldable pub degraded_of :
      ClusterSyncs → ClusterNodes → InstDownstreams → Bool → ClusterNode → List (Finding F)
  degraded_of s n d dj local = elim s.rows [
    | [] ↦ []
    | row ∷ more ↦
        if (collected s.status).0 && is_nil more
        then finding_of (sync_degraded row n d dj local)
        else []
  ]

  unfoldable pub judge_follower : InstDownstreams → ClusterNode → ClusterNode → Seen F
  judge_follower d local x =
      if attached d x.node_name then quiet else flagged (detached_finding local x)

  -- Cluster on a primary that repmgr calls one; `fs` are the findings so far.
  unfoldable pub cluster_primary :
      ClusterNodes
      → InstDownstreams
      → ClusterSyncs
      → ClusterNode
      → List (Finding F)
      → Bool
      → Result F
  cluster_primary n d s local fs unseen =
      let (dj, du) = collected d.status in
      let unread = unseen || (collected s.status).1 in
      let degraded = degraded_of s n d dj local in
      if not dj
      then judged (fs ++ degraded) (unread || du)
      else judged
          (fs ++ findings_of (judge_follower d local) (followers n local.node_id) ++ degraded)
          unread

  -- Cluster
  unfoldable pub cluster : ClusterNodes → InstDownstreams → ClusterSyncs → String → Result F
  cluster n d s role =
      let (judge, unseen) = collected n.status in
      let primaries = map (λ x. x.node_name) (select is_active_primary n.rows) in
      let split = if ltb 1 (length primaries) then primaries_finding primaries ∷ [] else [] in
      let fs = split ++ findings_of judge_node n.rows in
      if not judge then judged [] unseen else elim (local_node n.rows) [
        | none ↦ judged fs true
        | some local ↦
            let gs = fs ++ finding_of (judge_role local role) in
            if not (str_eq role "primary") || not (str_eq local.type "primary")
            then judged gs unseen
            else cluster_primary n d s local gs unseen
      ]
