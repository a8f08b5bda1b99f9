-- ===== src/Facts/Cluster.antt =====
-- internal/facts/cluster.go
use kbdiag.Prelude.{ℤ, String, Bool, Option, List, [], ◌∷◌}
use kbdiag.Facts.Base.{Status, Times, Value, int, str, bool, float, opt_int, opt_str}

abbrev pub cluster_nodes_id : String
cluster_nodes_id = "cluster.nodes"

abbrev pub cluster_events_id : String
cluster_events_id = "cluster.events"

abbrev pub cluster_sync_id : String
cluster_sync_id = "cluster.sync"

abbrev pub cluster_node_columns : List String
cluster_node_columns =
    "node_id" ∷ "node_name" ∷ "type" ∷ "upstream_node_id" ∷ "active" ∷ "priority" ∷ "location"
    ∷ "slot_name" ∷ "is_local" ∷ []

abbrev pub cluster_event_columns : List String
cluster_event_columns =
    "node_id" ∷ "event" ∷ "successful" ∷ "event_time" ∷ "event_age_s" ∷ "details" ∷ []

abbrev pub cluster_sync_columns : List String
cluster_sync_columns = "conf_path" ∷ "synchronous" ∷ "synchronous_standby_names" ∷ []

pub record ClusterNode : Type 0 where
  pub node_id : ℤ
  pub node_name : String
  pub type : String  -- primary | standby | witness
  pub upstream_node_id : Option ℤ
  pub active : Bool
  pub priority : Option ℤ
  pub location : Option String
  pub slot_name : Option String
  pub is_local : Bool

unfoldable pub node_row : {F : Type 0} → ClusterNode → List (Value F)
node_row n =
    int n.node_id
    ∷ str n.node_name
    ∷ str n.type
    ∷ opt_int n.upstream_node_id
    ∷ bool n.active
    ∷ opt_int n.priority
    ∷ opt_str n.location
    ∷ opt_str n.slot_name
    ∷ bool n.is_local
    ∷ []

pub record ClusterNodes : Type 0 where
  pub status : Status
  pub reason : String
  pub rows : List ClusterNode

pub record ClusterEvent (F T : Type 0) : Type 0 where
  pub node_id : ℤ
  pub event : String
  pub successful : Bool
  pub time : T
  pub age_s : F
  pub details : Option String

unfoldable pub event_row : {F T : Type 0} ⦃tm : Times T⦄ → ClusterEvent F T → List (Value F)
event_row ⦃tm⦄ e =
    int e.node_id
    ∷ str e.event
    ∷ bool e.successful
    ∷ str (tm.rfc3339 e.time)
    ∷ float e.age_s
    ∷ opt_str e.details
    ∷ []

pub record ClusterEvents (F T : Type 0) : Type 0 where
  pub status : Status
  pub reason : String
  pub rows : List (ClusterEvent F T)

pub record ClusterSync : Type 0 where
  pub conf_path : String
  pub synchronous : Option String
  pub standby_names : Option String

unfoldable pub sync_row : {F : Type 0} → ClusterSync → List (Value F)
sync_row s = str s.conf_path ∷ opt_str s.synchronous ∷ opt_str s.standby_names ∷ []

pub record ClusterSyncs : Type 0 where
  pub status : Status
  pub reason : String
  pub rows : List ClusterSync
