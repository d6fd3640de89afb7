-- ===== src/Cluster/Update.antt =====
-- The updaters of `onMessage` in src/frontend/src/services/cluster.tsx. A value is replaced only if its
-- JSON text changes; on these records that is equality of all fields.
use swarm_engine.Prelude.{
  Bool, true, false, not, ◌&&◌, Option, none, some, List, [], ◌∷◌, ◌++◌, map, ◌==◌, if◌then◌else◌,
  any, filter,
}
use swarm_engine.Text.{Str, str_eq}
use swarm_engine.Cluster.{
  ModelInfo, ClusterStatus, NodeStatus, ClusterInfo, NodeInfo, ClusterState, StatusData,
  node_info_of, next_cluster_info,
}

unfoldable pub status_eq : NodeStatus → NodeStatus → Bool
status_eq NodeStatus.waiting NodeStatus.waiting = true
status_eq NodeStatus.available NodeStatus.available = true
status_eq NodeStatus.failed NodeStatus.failed = true
status_eq _ _ = false

unfoldable pub node_eq : NodeInfo → NodeInfo → Bool
unfolding status_eq str_eq
node_eq a b =
    str_eq a.id b.id
    && (status_eq a.status b.status
        && (a.gpu_number == b.gpu_number
            && (str_eq a.gpu_name b.gpu_name && a.gpu_memory == b.gpu_memory)))

unfoldable pub nodes_eq : List NodeInfo → List NodeInfo → Bool
unfolding node_eq
nodes_eq [] [] = true
nodes_eq (a ∷ xs) (b ∷ ys) = node_eq a b && nodes_eq xs ys
nodes_eq _ _ = false

-- `nodes.some((x) => x.id === n.id)`
unfoldable pub has_id : List NodeInfo → NodeInfo → Bool
unfolding str_eq
has_id nodes n = any (λ x. str_eq x.id n.id) nodes

abbrev pub mark_failed : NodeInfo → NodeInfo
mark_failed n = record n { status = NodeStatus.failed }

-- `prevOnlineNodes` and `prevOfflineNodes`
unfoldable pub prev_online : List NodeInfo → List NodeInfo → List NodeInfo
unfolding has_id
prev_online prev next = filter (λ n. has_id next n) prev

unfoldable pub prev_offline : List NodeInfo → List NodeInfo → List NodeInfo
unfolding has_id
prev_offline prev next = map mark_failed (filter (λ n. not (has_id next n)) prev)

-- The nodes that left are shown on, as failed, while those that stayed have not changed.
unfoldable pub with_offline : List NodeInfo → List NodeInfo → List NodeInfo
unfolding prev_online prev_offline nodes_eq
with_offline prev next =
    if nodes_eq next (prev_online prev next) then next ++ prev_offline prev next else next

-- The updater of the node list.
unfoldable pub merge_nodes : List NodeInfo → List NodeInfo → List NodeInfo
unfolding with_offline nodes_eq
merge_nodes prev next =
    let merged = with_offline prev next in if nodes_eq merged prev then prev else merged

unfoldable pub cluster_status_eq : ClusterStatus → ClusterStatus → Bool
cluster_status_eq ClusterStatus.offline ClusterStatus.offline = true
cluster_status_eq ClusterStatus.idle ClusterStatus.idle = true
cluster_status_eq ClusterStatus.waiting ClusterStatus.waiting = true
cluster_status_eq ClusterStatus.available ClusterStatus.available = true
cluster_status_eq ClusterStatus.rebalancing ClusterStatus.rebalancing = true
cluster_status_eq ClusterStatus.failed ClusterStatus.failed = true
cluster_status_eq _ _ = false

unfoldable pub bool_eq : Bool → Bool → Bool
bool_eq true b = b
bool_eq false b = not b

unfoldable pub commands_eq : List (Str × Str) → List (Str × Str) → Bool
unfolding str_eq
commands_eq [] [] = true
commands_eq ((k, v) ∷ xs) ((l, w) ∷ ys) = str_eq k l && (str_eq v w && commands_eq xs ys)
commands_eq _ _ = false

unfoldable pub model_eq : Option ModelInfo → Option ModelInfo → Bool
unfolding str_eq
model_eq none none = true
model_eq (some a) (some b) =
    str_eq a.name b.name
    && (str_eq a.display_name b.display_name && (str_eq a.logo_url b.logo_url && a.vram == b.vram))
model_eq _ _ = false

unfoldable pub info_eq : ClusterInfo → ClusterInfo → Bool
unfolding cluster_status_eq bool_eq commands_eq model_eq
info_eq a b =
    str_eq a.id b.id
    && (cluster_status_eq a.status b.status
        && (str_eq a.model_name b.model_name
            && (model_eq a.model_info b.model_info
                && (commands_eq a.node_join_command b.node_join_command
                    && (a.init_nodes_number == b.init_nodes_number
                        && bool_eq a.need_more_nodes b.need_more_nodes)))))

-- The updater of the cluster's information.
unfoldable pub update_info : List ModelInfo → StatusData → ClusterInfo → ClusterInfo
unfolding info_eq next_cluster_info
update_info models d prev =
    let next = next_cluster_info models d prev in if info_eq next prev then prev else next

-- `onMessage`, of a message of the type `cluster_status`; any other changes nothing.
unfoldable pub on_message : Option StatusData → ClusterState → ClusterState
unfolding update_info merge_nodes node_info_of
on_message none s = s
on_message (some d) s = record s {
  cluster_info = update_info s.captured d s.cluster_info;
  node_info_list = merge_nodes s.node_info_list (map node_info_of d.node_list);
}
