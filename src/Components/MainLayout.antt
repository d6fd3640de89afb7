-- ===== src/Components/MainLayout.antt =====
-- src/frontend/src/components/common/main-layout.tsx: what the layout of the setup pages shows, with the
-- information for debugging; and the size of the pulse of
-- src/frontend/src/components/inputs/dot-pulse.tsx. `N` is what React renders.
use swarm_engine.Prelude.{ℕ, Bool, Option, none, some, List, [], ◌∷◌, if◌then◌else◌}
use swarm_engine.Text.{Str, codes}
use swarm_engine.Json.{Json, undefined, bool, num, str, obj, Fields, end, entry}
use swarm_engine.Cluster.{
  ModelInfo, ClusterInfo, ClusterStatus, ClusterState, NetworkType, local, remote,
}

-- `contentEnd` when the layout is used: not given, or given, and then maybe nothing.
pub data EndContent (N : Type 0) : Type 0 where
  not_given : EndContent N
  given : Option N → EndContent N

-- What stands at the end: nothing, what was given, or the information for debugging.
pub data EndView (N D : Type 0) : Type 0 where
  nothing : EndView N D
  shown : N → EndView N D
  debug_info : D → EndView N D

pub record MainLayoutView (N D : Type 0) : Type 0 where
  pub children : N
  pub start : Option N
  pub end_view : EndView N D

-- A list of fields, each with its JSON text.
pub record DebugRecord : Type 0 where
  pub title : Str
  pub fields : List (Str × Json)

pub record DebugInfo : Type 0 where
  pub records : List DebugRecord
  pub links : List Str

abbrev network_text : NetworkType → Str
network_text local = codes "local"
network_text remote = codes "remote"

abbrev status_text : ClusterStatus → Str
status_text ClusterStatus.offline = codes "offline"
status_text ClusterStatus.idle = codes "idle"
status_text ClusterStatus.waiting = codes "waiting"
status_text ClusterStatus.available = codes "available"
status_text ClusterStatus.rebalancing = codes "rebalancing"
status_text ClusterStatus.failed = codes "failed"

abbrev model_json : Option ModelInfo → Json
model_json none = undefined
model_json (some m) = obj (
    entry (codes "name") (str m.name) (
      entry (codes "displayName") (str m.display_name)
        (entry (codes "logoUrl") (str m.logo_url) (entry (codes "vram") (num m.vram) end))))

abbrev commands_json : List (Str × Str) → Fields
commands_json [] = end
commands_json ((k, v) ∷ rest) = entry k (str v) (commands_json rest)

-- `Object.entries(clusterInfo)`
abbrev cluster_fields : ClusterInfo → List (Str × Json)
cluster_fields i =
    (codes "id", str i.id)
    ∷ (codes "status", str (status_text i.status))
    ∷ (codes "modelName", str i.model_name)
    ∷ (codes "modelInfo", model_json i.model_info)
    ∷ (codes "nodeJoinCommand", obj (commands_json i.node_join_command))
    ∷ (codes "initNodesNumber", num i.init_nodes_number)
    ∷ (codes "needMoreNodes", bool i.need_more_nodes)
    ∷ []

-- `DebugInfo`: only the development build shows it.
unfoldable debug_info_view : Bool → ClusterState → Option DebugInfo
debug_info_view dev s =
    if dev
    then some (record {
      records =
          record {
            title = codes "Init Parameters";
            fields =
                (codes "initNodesNumber", num s.init_nodes_number)
                ∷ (codes "networkType", str (network_text s.network_type))
                ∷ (codes "modelName", str s.model_name)
                ∷ [];
          }
          ∷ record { title = codes "Status Info"; fields = cluster_fields s.cluster_info }
          ∷ [];
      links = codes "/setup" ∷ codes "/join" ∷ codes "/chat" ∷ [];
    })
    else none

abbrev shown_or_nothing : {N D : Type 0} → Option N → EndView N D
shown_or_nothing none = nothing
shown_or_nothing (some n) = shown n

abbrev debug_or_nothing : {N D : Type 0} → Option D → EndView N D
debug_or_nothing none = nothing
debug_or_nothing (some d) = debug_info d

-- `MainLayout`
unfoldable pub main_layout :
    {N : Type 0} → Bool → ClusterState → N → Option N → EndContent N → MainLayoutView N DebugInfo
unfolding debug_info_view
main_layout dev s children start not_given = record {
  children = children;
  start = start;
  end_view = debug_or_nothing (debug_info_view dev s);
}
main_layout dev s children start (given content) = record {
  children = children;
  start = start;
  end_view = shown_or_nothing content;
}

-- `DotPulseSize`
pub data DotPulseSize : Type 0 where
  small medium large : DotPulseSize

-- `SIZE_MAP`, in hundredths of rem, of a size that is `medium` if it is not given.
abbrev dot_pulse_size : Option DotPulseSize → ℕ
dot_pulse_size none = 125
dot_pulse_size (some small) = 100
dot_pulse_size (some medium) = 125
dot_pulse_size (some large) = 225
