-- ===== src/Probe/ClusterFile/Own.antt =====
-- internal/probe/cluster.go: whose repmgr.conf ClusterSync reads.
use kbdiag.Prelude.{
  ℤ, String, Bool, true, false, Option, some, List, [], ◌∷◌, ◌++◌, any, show, str_eq, ◌≡◌, ◌↔◌,
}
use kbdiag.Unicode.{Unicode}
use kbdiag.Facts.Cluster.{ClusterNode, ClusterNodes, ClusterSync}
use kbdiag.Conn.Failures.{Attempt, done}
use kbdiag.Rule.Cluster.{local_node}
use kbdiag.Probe.RepmgrConf.{parse_repmgr_conf}
use kbdiag.Probe.ClusterFile.{Files, SyncAnswer, conf_path}

-- The file gives the key this value: in its last entry of the key (the entries stand newest first).
pub record IsValue (key value : String) (conf : List (String × String)) : Type 0 where
  pub newer : List (String × String)
  pub older : List (String × String)
  pub listed : conf ≡ newer ++ ((key, value) ∷ older)
  pub latest : any (λ e. str_eq e.0 key) newer ≡ false

module _ (fs : Files) ⦃u : Unicode⦄ where
  -- Where the file names a node it is this one, and where it names a data directory and the
  -- instance's is known, the two are the same path.
  pub record IsOwnConf (id : ℤ) (datadir : Option String) (conf : List (String × String))
      : Type 0 where
    pub of_node : (v : String) → IsValue "node_id" v conf → v ≡ show id
    pub of_directory :
        (v own : String)
        → IsValue "data_directory" v conf
        → datadir ≡ some own
        → fs.clean v ≡ fs.clean own

  -- The row has the mode of the file, and no mode where the file has none.
  pub record IsRead (path : String) (names : Option String) (conf : List (String × String))
      (rows : List ClusterSync) : Type 0 where
    pub row : ClusterSync
    pub only : rows ≡ row ∷ []
    pub path_lem : row.conf_path ≡ path
    pub names_lem : row.standby_names ≡ names
    pub mode : (v : String) → (row.synchronous ≡ some v) ↔ IsValue "synchronous" v conf

  -- Where the rows of a collected cluster.sync came from.
  pub record IsOwn (role : String) (n : ClusterNodes) (query : ℤ → Attempt SyncAnswer) (here : Bool)
      (rows : List ClusterSync) : Type 0 where
    pub local : ClusterNode
    pub answer : SyncAnswer
    pub bindir : String
    pub text : String
    pub on_primary : str_eq role "primary" ≡ true
    pub on_host : here ≡ true
    pub identified : local_node n.rows ≡ some local
    pub asked : query local.node_id ≡ done answer
    pub located : answer.bindir ≡ some bindir
    pub opened : fs.read (conf_path bindir) ≡ done text
    pub own : IsOwnConf local.node_id answer.datadir (parse_repmgr_conf text)
    pub taken : IsRead (conf_path bindir) answer.names (parse_repmgr_conf text) rows

  -- What is known of the query's answer once the file was used.
  abbrev AnswerOwn : ℤ → Attempt SyncAnswer → List ClusterSync → Type 0
  AnswerOwn id q rows =
      (a : SyncAnswer) × (bindir : String) × (text : String) × (q ≡ done a)
      × (a.bindir ≡ some bindir)
      × (fs.read (conf_path bindir) ≡ done text)
      × IsOwnConf id a.datadir (parse_repmgr_conf text)
      × IsRead (conf_path bindir) a.names (parse_repmgr_conf text) rows
