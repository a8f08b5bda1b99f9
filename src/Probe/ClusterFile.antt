-- ===== src/Probe/ClusterFile.antt =====
-- internal/probe/cluster.go: ClusterSync and clusterSyncFile.
pub mod Own
use Prim.Native.Char.{code}
use Prim.Native.String.{◌++◌}
use kbdiag.Prelude.{
  ℤ, ◌==◌, String, Bool, false, Option, none, some, List, [], ◌∷◌, ◌&&◌, ◌||◌, not, concat, show,
  str_eq, if◌then◌else◌,
}
use kbdiag.Unicode.{Unicode}
use kbdiag.Facts.Base as Facts
use kbdiag.Facts.Base.{Status}
use kbdiag.Facts.Cluster.{ClusterNode, ClusterNodes, ClusterSyncs}
use kbdiag.Conn.Failures.{Attempt, done, failed}
use kbdiag.Rule.Names.{is_empty}
use kbdiag.Rule.Cluster.{local_node}
use kbdiag.Probe.Outcome.{classify, with_grant_hint}
use kbdiag.Probe.RepmgrConf.{parse_repmgr_conf, lookup}

-- The host's files: readFile, and filepath.Clean.
pub record Files : Type 0 where
  pub read : String → Attempt String
  pub clean : String → String

-- The row of clusterSyncSQL.
pub record SyncAnswer : Type 0 where
  pub bindir : Option String
  pub datadir : Option String
  pub names : Option String

-- strings.TrimRight(s, "/")
unfoldable pub trim_slashes : String → String
trim_slashes String.[] = ""
trim_slashes (String.◌∷◌ c s) =
    let rest = trim_slashes s in if is_empty rest && code c == b'/' then "" else String.◌∷◌ c rest

-- path of clusterSyncFile
unfoldable pub conf_path : String → String
unfolding trim_slashes
conf_path bindir = trim_slashes bindir ++ "/../etc/repmgr.conf"

abbrev pub skipped_sync : String → ClusterSyncs
skipped_sync why = record { status = Status.skipped; reason = why; rows = [] }

-- conf["node_id"] is there and is another node's
unfoldable pub other_node : ℤ → Option String → Bool
other_node id none = false
other_node id (some v) = not (str_eq v (show id))

-- conf["data_directory"] is there, this instance's is known, and they differ
unfoldable pub other_directory : (String → String) → Option String → Option String → Bool
other_directory clean (some d) (some own) = not (str_eq (clean d) (clean own))
other_directory clean _ _ = false

abbrev pub text_or_empty : Option String → String
text_or_empty none = ""
text_or_empty (some s) = s

module _ (fs : Files) ⦃u : Unicode⦄ where
  -- The checks of clusterSyncFile on the file's entries.
  unfoldable pub sync_of_conf :
      String → ℤ → Option String → Option String → List (String × String) → ClusterSyncs
  unfolding other_node other_directory lookup
  sync_of_conf path id datadir names conf =
      if other_node id (lookup "node_id" conf)
      then skipped_sync (
          concat (
            path
            ∷ " is for node_id "
            ∷ text_or_empty (lookup "node_id" conf)
            ∷ ", not this node ("
            ∷ show id
            ∷ ")"
            ∷ []))
      else if other_directory fs.clean (lookup "data_directory" conf) datadir
      then skipped_sync (
          concat (
            path
            ∷ " is for data_directory "
            ∷ text_or_empty (lookup "data_directory" conf)
            ∷ ", not this instance's"
            ∷ []))
      else record {
        status = Status.ok;
        reason = "";
        rows =
            (record {
              conf_path = path;
              synchronous = lookup "synchronous" conf;
              standby_names = names;
            })
            ∷ [];
      }

  unfoldable pub sync_of_text :
      String → ℤ → Option String → Option String → Attempt String → ClusterSyncs
  unfolding sync_of_conf parse_repmgr_conf
  sync_of_text path id datadir names (failed e) = skipped_sync e.text
  sync_of_text path id datadir names (done text) =
      sync_of_conf path id datadir names (parse_repmgr_conf text)

  -- clusterSyncFile
  unfoldable pub cluster_sync_file : String → ℤ → Option String → Option String → ClusterSyncs
  unfolding sync_of_text conf_path
  cluster_sync_file bindir id datadir names =
      sync_of_text (conf_path bindir) id datadir names (fs.read (conf_path bindir))

  -- ClusterSync, of what its query came to
  unfoldable pub sync_of_answer : ℤ → Attempt SyncAnswer → ClusterSyncs
  unfolding cluster_sync_file classify with_grant_hint
  sync_of_answer id (failed e) =
      let (st, reason) = classify e in
      record { status = st; reason = with_grant_hint st reason; rows = [] }
  sync_of_answer id (done a) = elim a.bindir [
    | none ↦ skipped_sync (concat ("repmgr.conf table has no sys_bindir for node " ∷ show id ∷ []))
    | some bindir ↦ cluster_sync_file bindir id a.datadir a.names
  ]

  -- ClusterSync, of this node's row; `query` is the query for a node's id
  unfoldable pub sync_of_local : (ℤ → Attempt SyncAnswer) → Bool → Option ClusterNode → ClusterSyncs
  unfolding sync_of_answer
  sync_of_local query here none =
      skipped_sync "this node is not identified in repmgr.nodes, so its repmgr.conf is unknown"
  sync_of_local query here (some local) =
      if not here
      then skipped_sync "remote connection: repmgr.conf is read on the database host only"
      else sync_of_answer local.node_id (query local.node_id)

  -- ClusterSync
  unfoldable pub cluster_sync :
      String → ClusterNodes → (ℤ → Attempt SyncAnswer) → Bool → Bool → ClusterSyncs
  unfolding sync_of_local local_node
  cluster_sync role n query socket loopback = elim n.status [
    | Status.ok ↦
        if not (str_eq role "primary")
        then record {
          status = Status.not_applicable;
          reason = "standby: synchronous_standby_names takes effect on the primary";
          rows = [];
        }
        else sync_of_local query (socket || loopback) (local_node n.rows)
    | st ↦ record { status = st; reason = "cluster.nodes was not collected"; rows = [] }
  ]
