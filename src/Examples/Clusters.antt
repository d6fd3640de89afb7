-- ===== src/Examples/Clusters.antt =====
-- The cluster's state at concrete nodes, messages and actions.
use swarm_engine.Prelude.{◌≡◌, ◌⊎◌, List, [], ◌∷◌, ◌++◌}
use swarm_engine.Text.{Str, codes}
use swarm_engine.Cluster.{NodeStatus, NodeInfo}
use swarm_engine.Cluster.Update.{merge_nodes, prev_online}
use swarm_engine.Cluster.Nodes.{AllGone, merge_nodes_idem, merge_nodes_shows}

abbrev a_node : Str → NodeInfo
a_node i = record {
  id = i;
  status = NodeStatus.available;
  gpu_number = 1;
  gpu_name = codes "gpu";
  gpu_memory = 24;
}

abbrev before : List NodeInfo
before = a_node (codes "a") ∷ a_node (codes "b") ∷ []

abbrev after : List NodeInfo
after = a_node (codes "b") ∷ []

merge_nodes_idem_example : merge_nodes (merge_nodes before after) after ≡ merge_nodes before after
merge_nodes_idem_example = merge_nodes_idem before after

merge_nodes_shows_example :
    (gone : List NodeInfo) × (merge_nodes before after ≡ after ++ gone)
    × AllGone after gone
    × ((gone ≡ []) ⊎ (after ≡ prev_online before after))
merge_nodes_shows_example = merge_nodes_shows before after
