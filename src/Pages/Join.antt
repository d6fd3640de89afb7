-- ===== src/Pages/Join.antt =====
-- src/frontend/src/pages/join.tsx: the alerts above the list of nodes.
use Prim.Native.Nat.{zero, suc}
use swarm_engine.Prelude.{
  ℕ, ◌≡◌, refl, inl, inr, Bool, true, false, ◌&&◌, Option, none, some, List, [], ◌∷◌, ◌++◌, arith,
  ltb, leb, if◌then◌else◌, Bool-cases, length, all,
}
use swarm_engine.Cluster.{NodeStatus, ClusterInfo, NodeInfo, ClusterState, find_model}
use swarm_engine.Cluster.Setup.{init_done}
use swarm_engine.Cluster.ModelName.{is_waiting}
use swarm_engine.Cluster.Nodes.{AllGone}
use swarm_engine.Pages.Setup.{positive_vram}

abbrev node_available : NodeInfo → Bool
node_available n = elim n.status [ NodeStatus.available ↦ true | _ ↦ false ]

-- `isError`: all nodes that were asked for are there and available, and the cluster still waits.
unfoldable is_error : ClusterInfo → List NodeInfo → Bool
is_error c nodes =
    ltb 0 c.init_nodes_number
    && (leb c.init_nodes_number (length nodes) && (all node_available nodes && is_waiting c.status))

pub data JoinAlert : Type 0 where
  needs_more_nodes retry_command : JoinAlert

-- The alerts of `PageJoin`: the first, and the memory of the second if that is shown.
pub record JoinView : Type 0 where
  pub alert : JoinAlert
  pub vram_alert : Option ℕ

unfoldable join_view : ClusterState → JoinView
unfolding is_error find_model
join_view s = record {
  alert = if is_error s.cluster_info s.node_info_list then needs_more_nodes else retry_command;
  vram_alert =
      if s.cluster_info.need_more_nodes
      then positive_vram (find_model (some s.model_name) s.model_info_list)
      else none;
}

not_all :
    (n : NodeInfo) (next gone : List NodeInfo)
    → n.status ≡ NodeStatus.failed
    → all node_available (next ++ n ∷ gone) ≡ false
not_all n [] gone h = rw h refl
not_all n (m ∷ next) gone h = elim (Bool-cases (node_available m)) [
  | inl e ↦ rw e (not_all n next gone h)
  | inr e ↦ rw e refl
]

refused : (a b d : Bool) → (a && (b && (false && d))) ≡ false
refused true true d = refl
refused true false d = refl
refused false b d = refl

-- While a node that has left is still shown, the page does not ask for more nodes, whatever the cluster's
-- state; nor does it right after the cluster was started, and then it shows no warning on memory.
join_alerts :
    (s : ClusterState) (next gone : List NodeInfo) (n : NodeInfo)
    → s.node_info_list ≡ next ++ n ∷ gone
    → AllGone next (n ∷ gone)
    → ((join_view s).alert ≡ retry_command)
      × ((join_view (init_done s s)).alert ≡ retry_command)
      × ((join_view (init_done s s)).vram_alert ≡ none)
unfolding join_view is_error init_done
join_alerts s next gone n e g = (shown, started s.init_nodes_number, refl)
  where
    shown : (join_view s).alert ≡ retry_command
    shown =
        rw
          (
            e,
            not_all n next gone g.0.0,
            refused (ltb 0 s.cluster_info.init_nodes_number)
                (leb s.cluster_info.init_nodes_number (length (next ++ n ∷ gone)))
                (is_waiting s.cluster_info.status),
          )
          refl

    started :
        (k : ℕ)
        → (if ltb 0 k && (leb k 0 && true) then needs_more_nodes else retry_command) ≡ retry_command
    started zero = refl
    started (suc k) = ground arith
