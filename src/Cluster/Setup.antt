-- ===== src/Cluster/Setup.antt =====
-- The action of `ClusterProvider` in src/frontend/src/services/cluster.tsx that starts the cluster.
use Prim.Native.Nat.{◌<◌, ◌≤◌}
use swarm_engine.Prelude.{
  ℕ, ◌≡◌, refl, ◌⊎◌, inl, inr, Bool, true, false, not, some, [], ltb, if◌then◌else◌, Bool-cases,
  ge→ltb, ltb→lt, ltb→ge,
}
use swarm_engine.Text.{Str, truthy}
use swarm_engine.Cluster.{ClusterStatus, ClusterState, NetworkType, local, remote, find_model}

-- What `init` throws on its own.
pub data InitError : Type 0 where
  no_nodes no_model : InitError

pub record InitParams : Type 0 where
  pub model_name : Str
  pub init_nodes_num : ℕ
  pub is_local_network : Bool

abbrev pub is_local : NetworkType → Bool
is_local local = true
is_local remote = false

pub data Checked : Type 0 where
  refused : InitError → Checked
  params : InitParams → Checked

-- The first part of `init`: its checks, and what it sends.
unfoldable pub init_params : ClusterState → Checked
init_params s =
    if ltb s.init_nodes_number 1
    then refused no_nodes
    else if not (truthy s.model_name)
    then refused no_model
    else params (record {
      model_name = s.model_name;
      init_nodes_num = s.init_nodes_number;
      is_local_network = is_local s.network_type;
    })

-- The second part, after the scheduler has answered: it knows the render that the call has `seen`, and
-- updates the state of now.
unfoldable pub init_done : ClusterState → ClusterState → ClusterState
unfolding find_model
init_done seen s = record s {
  cluster_info = record s.cluster_info {
    status = ClusterStatus.waiting;
    init_nodes_number = seen.init_nodes_number;
    model_name = seen.model_name;
    model_info = find_model (some seen.model_name) seen.model_info_list;
    need_more_nodes = false;
  };
  node_info_list = [];
}

-- How a call of `init` ends.
pub data InitResult : Type 0 where
  threw : InitError → InitResult
  scheduler_failed : InitResult
  started : InitParams → ClusterState → InitResult

-- `accepted` says whether `initScheduler` succeeds.
abbrev pub finish_init : Bool → ClusterState → ClusterState → Checked → InitResult
finish_init accepted seen s (refused e) = threw e
finish_init accepted seen s (params p) =
    if accepted then started p (init_done seen s) else scheduler_failed

-- A call that has `seen` a state ends in another one, as more may happen while it waits.
unfoldable pub end_init : Bool → ClusterState → ClusterState → InitResult
unfolding init_params init_done
end_init accepted seen s = finish_init accepted seen s (init_params seen)

-- A call that nothing interrupts.
unfoldable pub run_init : Bool → ClusterState → InitResult
unfolding end_init
run_init accepted s = end_init accepted s s

-- The cluster was started with what was set: the request carries it, and the cluster waits with it.
abbrev pub IsStarted : ClusterState → InitResult → Type 0
IsStarted s r =
    (p : InitParams) × (u : ClusterState) × (r ≡ started p u)
    × (p.model_name ≡ s.model_name)
    × (p.init_nodes_num ≡ s.init_nodes_number)
    × (p.is_local_network ≡ is_local s.network_type)
    × (u.cluster_info.status ≡ ClusterStatus.waiting)
    × (u.cluster_info.model_name ≡ s.model_name)
    × (u.cluster_info.init_nodes_number ≡ s.init_nodes_number)
    × (u.node_info_list ≡ [])

-- What `init` does in each case: it throws with no node or, failing that, with no model named; else it
-- asks the scheduler for what was set, and gives up if that fails. If the scheduler accepts, the cluster
-- waits with the values that were set and with no node.
pub run_init_cases :
    (accepted : Bool) (s : ClusterState)
    → ((s.init_nodes_number < 1) × (run_init accepted s ≡ threw no_nodes))
      ⊎ ((1 ≤ s.init_nodes_number)
          × (truthy s.model_name ≡ false)
          × (run_init accepted s ≡ threw no_model))
      ⊎ ((1 ≤ s.init_nodes_number)
          × (truthy s.model_name ≡ true)
          × (accepted ≡ false)
          × (run_init accepted s ≡ scheduler_failed))
      ⊎ ((1 ≤ s.init_nodes_number)
          × (truthy s.model_name ≡ true)
          × (accepted ≡ true)
          × IsStarted s (run_init accepted s))
unfolding run_init end_init
run_init_cases accepted s = elim (Bool-cases (ltb s.init_nodes_number 1)) [
  | inl h ↦ inl (ltb→lt s.init_nodes_number 1 h, rw h refl)
  | inr h ↦ inr (named (ltb→ge s.init_nodes_number 1 h) (Bool-cases (truthy s.model_name)))
]
  where
    sent : InitParams
    sent = record {
      model_name = s.model_name;
      init_nodes_num = s.init_nodes_number;
      is_local_network = is_local s.network_type;
    }

    answered :
        (a : Bool)
        → 1 ≤ s.init_nodes_number
        → truthy s.model_name ≡ true
        → ((1 ≤ s.init_nodes_number)
            × (truthy s.model_name ≡ true)
            × (a ≡ false)
            × (run_init a s ≡ scheduler_failed))
          ⊎ ((1 ≤ s.init_nodes_number)
              × (truthy s.model_name ≡ true)
              × (a ≡ true)
              × IsStarted s (run_init a s))
    answered false h t =
        inl (h, t, refl, rw (ge→ltb s.init_nodes_number 1 h, run_init, end_init, t) refl)
    answered true h t = inr (
      h,
      t,
      refl,
      (
        sent,
        init_done s s,
        rw (ge→ltb s.init_nodes_number 1 h, run_init, end_init, t) refl,
        refl,
        refl,
        refl,
        refl,
        refl,
        refl,
        refl,
      ),
    )

    named :
        1 ≤ s.init_nodes_number
        → (truthy s.model_name ≡ true) ⊎ (truthy s.model_name ≡ false)
        → ((1 ≤ s.init_nodes_number)
            × (truthy s.model_name ≡ false)
            × (run_init accepted s ≡ threw no_model))
          ⊎ ((1 ≤ s.init_nodes_number)
              × (truthy s.model_name ≡ true)
              × (accepted ≡ false)
              × (run_init accepted s ≡ scheduler_failed))
          ⊎ ((1 ≤ s.init_nodes_number)
              × (truthy s.model_name ≡ true)
              × (accepted ≡ true)
              × IsStarted s (run_init accepted s))
    named h (inr t) = inl (h, t, rw (ge→ltb s.init_nodes_number 1 h, run_init, end_init, t) refl)
    named h (inl t) = inr (answered accepted h t)
