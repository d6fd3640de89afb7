-- ===== src/Cluster/Info.antt =====
-- The events of `ClusterProvider` in src/frontend/src/services/cluster.tsx, and the cluster's information.
use swarm_engine.Prelude.{
  ℕ, ◌≡◌, refl, sym, ap, ◌∙◌, inl, inr, Bool, true, false, Option, none, some, List, [], ◌∷◌, ◌++◌,
  arith, Bool-cases,
}
use swarm_engine.Text.{Str, str_eq_iff}
use swarm_engine.Cluster.{
  ModelInfo, ClusterStatus, ClusterInfo, ClusterState, StatusData, RawModel, LogoUrls, HostType,
  node, cluster, initial_state, find_model, next_cluster_info, loaded, load_models,
  update_model_list, reset, NetworkType,
}
use swarm_engine.Cluster.Update.{
  cluster_status_eq, bool_eq, commands_eq, model_eq, info_eq, update_info, on_message,
}
use swarm_engine.Cluster.Setup.{
  init_done, end_init, InitResult, started, finish_init, init_params, Checked, refused, params,
}
use swarm_engine.Cluster.ModelName.{sync_model_name, sync_lem}

eq_of_cluster_status_eq : (a b : ClusterStatus) → cluster_status_eq a b ≡ true → a ≡ b
unfolding cluster_status_eq
eq_of_cluster_status_eq ClusterStatus.offline ClusterStatus.offline h = refl
eq_of_cluster_status_eq ClusterStatus.idle ClusterStatus.idle h = refl
eq_of_cluster_status_eq ClusterStatus.waiting ClusterStatus.waiting h = refl
eq_of_cluster_status_eq ClusterStatus.available ClusterStatus.available h = refl
eq_of_cluster_status_eq ClusterStatus.rebalancing ClusterStatus.rebalancing h = refl
eq_of_cluster_status_eq ClusterStatus.failed ClusterStatus.failed h = refl
eq_of_cluster_status_eq _ _ h = cc

eq_of_bool_eq : (a b : Bool) → bool_eq a b ≡ true → a ≡ b
unfolding bool_eq
eq_of_bool_eq true b h = sym h
eq_of_bool_eq false true h = cc
eq_of_bool_eq false false h = refl

eq_of_commands_eq : (xs ys : List (Str × Str)) → commands_eq xs ys ≡ true → xs ≡ ys
unfolding commands_eq
eq_of_commands_eq [] [] h = refl
eq_of_commands_eq ((k, v) ∷ xs) ((l, w) ∷ ys) h =
    ground (arith, str_eq_iff k l, str_eq_iff v w, eq_of_commands_eq xs ys)
eq_of_commands_eq _ _ h = cc

eq_of_model_eq : (a b : Option ModelInfo) → model_eq a b ≡ true → a ≡ b
unfolding model_eq
eq_of_model_eq none none h = refl
eq_of_model_eq (some a) (some b) h = ground (
  arith,
  str_eq_iff a.name b.name,
  str_eq_iff a.display_name b.display_name,
  str_eq_iff a.logo_url b.logo_url,
)
eq_of_model_eq _ _ h = cc

eq_of_info_eq : (a b : ClusterInfo) → info_eq a b ≡ true → a ≡ b
unfolding info_eq
eq_of_info_eq a b h = ground (
  arith,
  str_eq_iff a.id b.id,
  eq_of_cluster_status_eq a.status b.status,
  str_eq_iff a.model_name b.model_name,
  eq_of_model_eq a.model_info b.model_info,
  eq_of_commands_eq a.node_join_command b.node_join_command,
  eq_of_bool_eq a.need_more_nodes b.need_more_nodes,
)

-- Keeping the old record when nothing changes is no other value.
pub update_info-eq :
    (models : List ModelInfo) (d : StatusData) (prev : ClusterInfo)
    → update_info models d prev ≡ next_cluster_info models d prev
unfolding update_info
update_info-eq models d prev = elim (Bool-cases (info_eq (next_cluster_info models d prev) prev)) [
  | inl e ↦ rw e (sym (eq_of_info_eq (next_cluster_info models d prev) prev e))
  | inr e ↦ rw e refl
]

-- What happens to the provider: calls of its setters, the end of a call of `init`, the answers for the
-- model list, messages and errors of the stream, and the effect on the name of the model. The end of a
-- call of `init` stands with the state that the call has seen, that of an earlier render.
pub data ClusterEvent : Type 0 where
  set_network : NetworkType → ClusterEvent
  set_nodes : ℕ → ClusterEvent
  set_name : Str → ClusterEvent
  load : LogoUrls → HostType → List (Option (List RawModel)) → ClusterEvent
  message : Option StatusData → ClusterEvent
  stream_error sync : ClusterEvent
  init_now : ClusterState → Bool → ClusterEvent

unfoldable pub after_init : InitResult → ClusterState → ClusterState
after_init (started p u) s = u
after_init _ s = s

unfoldable pub step : ClusterState → ClusterEvent → ClusterState
unfolding update_model_list on_message reset sync_model_name end_init after_init
step s (set_network t) = record s { network_type = t }
step s (set_nodes n) = record s { init_nodes_number = n }
step s (set_name m) = record s { model_name = m }
step s (load u h answers) = update_model_list u h answers s
step s (message d) = on_message d s
step s stream_error = reset s
step s sync = sync_model_name s
step s (init_now seen accepted) = after_init (end_init accepted seen s) s

unfoldable pub run : ClusterState → List ClusterEvent → ClusterState
unfolding step
run s [] = s
run s (e ∷ es) = run (step s e) es

captured-update_model_list :
    (u : LogoUrls) (h : HostType) (answers : List (Option (List RawModel))) (s : ClusterState)
    → (update_model_list u h answers s).captured ≡ s.captured
unfolding update_model_list
captured-update_model_list u node answers s = refl
captured-update_model_list u cluster answers s = go (load_models u answers)
  where
    go : (o : Option (List ModelInfo)) → (loaded o s).captured ≡ s.captured
    go none = refl
    go (some next) = refl

captured-end_init :
    (accepted : Bool) (seen s : ClusterState)
    → (after_init (end_init accepted seen s) s).captured ≡ s.captured
unfolding end_init after_init init_done
captured-end_init accepted seen s = go accepted (init_params seen)
  where
    go : (b : Bool) (c : Checked) → (after_init (finish_init b seen s c) s).captured ≡ s.captured
    go b (refused e) = refl
    go true (params p) = refl
    go false (params p) = refl

captured-step : (s : ClusterState) (e : ClusterEvent) → (step s e).captured ≡ s.captured
unfolding step
captured-step s (set_network t) = refl
captured-step s (set_nodes n) = refl
captured-step s (set_name m) = refl
captured-step s (load u h answers) = captured-update_model_list u h answers s
captured-step s (message none) = refl
captured-step s (message (some d)) = refl
captured-step s stream_error = refl
captured-step s sync = ap (λ (x : ClusterState). x.captured) (sync_lem s)
captured-step s (init_now seen accepted) = captured-end_init accepted seen s

captured-run : (s : ClusterState) (es : List ClusterEvent) → (run s es).captured ≡ s.captured
unfolding run
captured-run s [] = refl
captured-run s (e ∷ es) = captured-run (step s e) es ∙ captured-step s e

pub find_model-nil : (name : Option Str) → find_model name [] ≡ none
unfolding find_model
find_model-nil none = refl
find_model-nil (some n) = refl

pub run-last :
    (s : ClusterState) (es : List ClusterEvent) (e : ClusterEvent)
    → run s (es ++ e ∷ []) ≡ step (run s es) e
unfolding run
run-last s [] e = refl
run-last s (x ∷ es) e = run-last (step s x) es e

model_info-message :
    (s : ClusterState) (d : StatusData)
    → (step s (message (some d))).cluster_info.model_info ≡ find_model d.model_name s.captured
unfolding step next_cluster_info
model_info-message s d =
    ap (λ (x : ClusterInfo). x.model_info) (update_info-eq s.captured d s.cluster_info)

-- The model list may be loaded, the cluster may be started with a model of that list, and more may
-- happen: after a status message the cluster's information never has the model's record. The handler
-- looks the model up in the list of the first render, which is empty.
pub model_info-lost :
    (es : List ClusterEvent) (d : StatusData)
    → (run initial_state (es ++ message (some d) ∷ [])).cluster_info.model_info ≡ none
model_info-lost es d =
    ap (λ (x : ClusterState). x.cluster_info.model_info)
      (run-last initial_state es (message (some d)))
    ∙ model_info-message (run initial_state es) d
    ∙ ap (find_model d.model_name) (captured-run initial_state es)
    ∙ find_model-nil d.model_name
