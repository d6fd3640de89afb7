-- ===== src/Components/DrawerLayout.antt =====
-- src/frontend/src/components/common/drawer-layout.tsx: the dialogs that the layout of the chat opens when
-- the cluster's status changes.
pub mod View
use swarm_engine.Prelude.{◌≡◌, refl, ◌⊎◌, inl, inr, Bool, true, false, List, [], ◌∷◌, if◌then◌else◌}
use swarm_engine.Cluster.{ClusterStatus, HostType, cluster, node}

pub data DrawerDialog : Type 0 where
  waiting_dialog rebalancing_dialog need_more_nodes_dialog failed_dialog : DrawerDialog

-- The status that the last effects saw, whether the timer of an idle cluster runs, and the dialogs that
-- were opened, each with the status and the flag of that time, the last first.
pub record DrawerState : Type 0 where
  pub status : ClusterStatus
  pub need_more_nodes : Bool
  pub idle_timer : Bool
  pub opened : List (DrawerDialog × ClusterStatus × Bool)

abbrev open_dialog : DrawerDialog → DrawerState → DrawerState
open_dialog d s = record s { opened = (d, s.status, s.need_more_nodes) ∷ s.opened }

-- The effect of `dialogWaiting`
unfoldable waiting_effect : HostType → DrawerState → DrawerState
waiting_effect node s = s
waiting_effect cluster s = elim s.status [
  | ClusterStatus.waiting ↦ open_dialog waiting_dialog s
  | _ ↦ s
]

-- The effect of `dialogRebalancing`
unfoldable rebalancing_effect : DrawerState → DrawerState
rebalancing_effect s = elim s.status [
  | ClusterStatus.rebalancing ↦ open_dialog rebalancing_dialog s
  | _ ↦ s
]

-- The effect of `dialogNeedMoreNodes`
unfoldable need_more_nodes_effect : DrawerState → DrawerState
need_more_nodes_effect s = if s.need_more_nodes then open_dialog need_more_nodes_dialog s else s

-- The effect of `dialogFailed`: the dialog of an idle cluster waits for a timer.
unfoldable failed_effect : DrawerState → DrawerState
failed_effect s = elim s.status [
  | ClusterStatus.failed ↦ open_dialog failed_dialog s
  | ClusterStatus.idle ↦ record s { idle_timer = true }
  | _ ↦ s
]

-- The effects of a change of the status. The cleanup of the last one stops its timer.
unfoldable on_status : HostType → ClusterStatus → DrawerState → DrawerState
unfolding waiting_effect rebalancing_effect failed_effect
on_status h c s =
    failed_effect
      (rebalancing_effect (waiting_effect h (record s { status = c; idle_timer = false })))

unfoldable on_need : Bool → DrawerState → DrawerState
unfolding need_more_nodes_effect
on_need b s = need_more_nodes_effect (record s { need_more_nodes = b })

-- A change of the status, a change of the flag, and the end of the timer.
pub data DrawerEvent : Type 0 where
  status_changes : ClusterStatus → DrawerEvent
  need_changes : Bool → DrawerEvent
  timer_ends : DrawerEvent

abbrev timer_end : DrawerState → DrawerState
timer_end s =
    if s.idle_timer then open_dialog failed_dialog (record s { idle_timer = false }) else s

unfoldable drawer_step : HostType → DrawerState → DrawerEvent → DrawerState
unfolding on_status on_need
drawer_step h s (status_changes c) = on_status h c s
drawer_step h s (need_changes b) = on_need b s
drawer_step h s timer_ends = timer_end s

unfoldable pub drawer_run : HostType → DrawerState → List DrawerEvent → DrawerState
unfolding drawer_step
drawer_run h s [] = s
drawer_run h s (e ∷ es) = drawer_run h (drawer_step h s e) es

abbrev unseen : ClusterStatus → Bool → DrawerState
unseen c b = record { status = c; need_more_nodes = b; idle_timer = false; opened = [] }

-- The first render: all effects run.
unfoldable pub mount : HostType → ClusterStatus → Bool → DrawerState
unfolding on_status on_need
mount h c b = on_need b (on_status h c (unseen c b))

-- The dialogs agree with the host, the status and the flag at which they were opened.
abbrev Agrees : HostType → DrawerDialog → ClusterStatus → Bool → Type 0
Agrees h waiting_dialog c b = (h ≡ cluster) × (c ≡ ClusterStatus.waiting)
Agrees h rebalancing_dialog c b = c ≡ ClusterStatus.rebalancing
Agrees h need_more_nodes_dialog c b = b ≡ true
Agrees h failed_dialog c b = (c ≡ ClusterStatus.failed) ⊎ (c ≡ ClusterStatus.idle)

abbrev pub AllAgree : HostType → List (DrawerDialog × ClusterStatus × Bool) → Type 0
AllAgree h [] = Unit
AllAgree h ((d, c, b) ∷ ds) = Agrees h d c b × AllAgree h ds

-- A timer runs only while the cluster is idle.
abbrev IsTimed : ClusterStatus → Bool → Type 0
IsTimed c false = Unit
IsTimed c true = c ≡ ClusterStatus.idle

abbrev IsSound : HostType → DrawerState → Type 0
IsSound h s = AllAgree h s.opened × IsTimed s.status s.idle_timer

status-IsSound :
    (h : HostType) (c : ClusterStatus) (s : DrawerState) → IsSound h s → IsSound h (on_status h c s)
unfolding on_status waiting_effect rebalancing_effect failed_effect
status-IsSound cluster ClusterStatus.waiting s k = (((refl, refl), k.0), tt)
status-IsSound node ClusterStatus.waiting s k = (k.0, tt)
status-IsSound cluster ClusterStatus.rebalancing s k = ((refl, k.0), tt)
status-IsSound node ClusterStatus.rebalancing s k = ((refl, k.0), tt)
status-IsSound cluster ClusterStatus.failed s k = ((inl refl, k.0), tt)
status-IsSound node ClusterStatus.failed s k = ((inl refl, k.0), tt)
status-IsSound cluster ClusterStatus.idle s k = (k.0, refl)
status-IsSound node ClusterStatus.idle s k = (k.0, refl)
status-IsSound cluster ClusterStatus.offline s k = (k.0, tt)
status-IsSound node ClusterStatus.offline s k = (k.0, tt)
status-IsSound cluster ClusterStatus.available s k = (k.0, tt)
status-IsSound node ClusterStatus.available s k = (k.0, tt)

need-IsSound : (h : HostType) (b : Bool) (s : DrawerState) → IsSound h s → IsSound h (on_need b s)
unfolding on_need need_more_nodes_effect
need-IsSound h true s k = ((refl, k.0), k.1)
need-IsSound h false s k = k

timer-IsSound :
    (h : HostType) (b : Bool) (s : DrawerState)
    → AllAgree h s.opened
    → IsTimed s.status b
    → IsSound h (timer_end (record s { idle_timer = b }))
timer-IsSound h true s a t = ((inr t, a), tt)
timer-IsSound h false s a t = (a, tt)

run-IsSound :
    (h : HostType) (s : DrawerState) (es : List DrawerEvent)
    → IsSound h s
    → IsSound h (drawer_run h s es)
unfolding drawer_run drawer_step
run-IsSound h s [] k = k
run-IsSound h s (status_changes c ∷ es) k =
    run-IsSound h (on_status h c s) es (status-IsSound h c s k)
run-IsSound h s (need_changes b ∷ es) k = run-IsSound h (on_need b s) es (need-IsSound h b s k)
run-IsSound h s (timer_ends ∷ es) k =
    run-IsSound h (timer_end s) es (timer-IsSound h s.idle_timer s k.0 k.1)

-- Every dialog that the layout opens fits the moment at which it opens: the join dialog a cluster host
-- and a waiting cluster, the rebalancing dialog a rebalancing cluster, the third a request for more
-- nodes, and the restart dialog a failed or idle cluster, also when it was delayed by the timer.
pub dialogs_agree :
    (h : HostType) (c : ClusterStatus) (b : Bool) (es : List DrawerEvent)
    → AllAgree h (drawer_run h (mount h c b) es).opened
unfolding mount
dialogs_agree h c b es =
    (run-IsSound h (mount h c b) es
      (need-IsSound h b (on_status h c (unseen c b)) (status-IsSound h c (unseen c b) (tt, tt)))).0
