-- ===== src/Services/Words.antt =====
-- What the status stream last told of the cluster, and the cluster's status in
-- src/frontend/src/services/cluster.tsx.
use swarm_engine.Prelude.{◌≡◌, refl, sym, subst, Bool, true, false, Option, none, some, List, ◌∷◌}
use swarm_engine.Text.{Str}
use swarm_engine.StreamClient.{Output, message, Event}
use swarm_engine.Cluster.{
  ModelInfo, ClusterStatus, ClusterInfo, ClusterState, StatusData, RawModel, LogoUrls, HostType,
  node, cluster, status_of, text_or_empty, next_cluster_info, loaded, load_models,
  update_model_list,
}
use swarm_engine.Cluster.Setup.{
  init_done, end_init, finish_init, init_params, Checked, refused, params,
}
use swarm_engine.Cluster.ModelName.{sync_lem}
use swarm_engine.Cluster.Info.{
  ClusterEvent, set_network, set_nodes, set_name, load, stream_error, sync, init_now, step,
  after_init, update_info-eq,
}
use swarm_engine.Cluster.Stream.{Provider, stream_step}
use swarm_engine.Cluster.Stream.Words.{last_word, IsKept, stream_step-IsKept}
use swarm_engine.Services.{StatusParser, is_call}

module _ {E : Type 0} where
  -- A cluster that is available was told so by the last word, which names its model.
  abbrev pub IsWord : List (Output (Option StatusData) E) → ClusterInfo → Type 0
  IsWord log info =
      info.status ≡ ClusterStatus.available
      → (d : StatusData) × (last_word log ≡ some d)
        × (status_of d.model_name d.status ≡ ClusterStatus.available)
        × (info.model_name ≡ text_or_empty d.model_name)

  load-IsWord :
      (log : List (Output (Option StatusData) E)) (u : LogoUrls) (h : HostType)
      (answers : List (Option (List RawModel))) (s : ClusterState)
      → IsWord log s.cluster_info
      → IsWord log (update_model_list u h answers s).cluster_info
  unfolding update_model_list
  load-IsWord log u node answers s w = w
  load-IsWord log u cluster answers s w = go (load_models u answers)
    where
      go : (o : Option (List ModelInfo)) → IsWord log (loaded o s).cluster_info
      go none = w
      go (some next) = w

  init-IsWord :
      (log : List (Output (Option StatusData) E)) (accepted : Bool) (seen s : ClusterState)
      → IsWord log s.cluster_info
      → IsWord log (after_init (end_init accepted seen s) s).cluster_info
  unfolding end_init after_init init_done
  init-IsWord log accepted seen s w = go accepted (init_params seen)
    where
      go :
          (b : Bool) (c : Checked) → IsWord log (after_init (finish_init b seen s c) s).cluster_info
      go b (refused e) = w
      go true (params p) = λ h. absurd (cc h)
      go false (params p) = w

  pub call-IsWord :
      (log : List (Output (Option StatusData) E)) (s : ClusterState) (e : ClusterEvent)
      → is_call e ≡ true
      → IsWord log s.cluster_info
      → IsWord log (step s e).cluster_info
  unfolding step
  call-IsWord log s (set_network t) h w = w
  call-IsWord log s (set_nodes n) h w = w
  call-IsWord log s (set_name m) h w = w
  call-IsWord log s (load u t answers) h w = load-IsWord log u t answers s w
  call-IsWord log s (ClusterEvent.message d) h w = absurd (cc h)
  call-IsWord log s stream_error h w = absurd (cc h)
  call-IsWord log s sync h w =
      subst (λ (x : ClusterState). IsWord log x.cluster_info) (sym (sync_lem s)) w
  call-IsWord log s (init_now seen accepted) h w = init-IsWord log accepted seen s w

  message-IsWord :
      (log : List (Output (Option StatusData) E)) (s : ClusterState) (d : StatusData)
      → IsWord (message (some d) ∷ log) (step s (ClusterEvent.message (some d))).cluster_info
  unfolding step next_cluster_info
  message-IsWord log s d =
      subst (IsWord (message (some d) ∷ log)) (sym (update_info-eq s.captured d s.cluster_info))
        λ h. (d, refl, h, refl)

  heard-IsWord :
      (m : Option StatusData) (log : List (Output (Option StatusData) E)) (s : ClusterState)
      → IsWord log s.cluster_info
      → IsWord (message m ∷ log) (step s (ClusterEvent.message m)).cluster_info
  unfolding step
  heard-IsWord none log s w = w
  heard-IsWord (some d) log s w = message-IsWord log s d

  -- What the stream tells keeps it so.
  IsWord-IsKept : IsKept (λ log s. IsWord log s.cluster_info)
  unfolding step
  IsWord-IsKept = record {
    by_status = λ x log s w. w;
    by_message = heard-IsWord;
    by_timeout = λ log s w h. absurd (cc h);
    by_failure = λ e log s w h. absurd (cc h);
  }

  -- An event of the stream gives the cluster its last word.
  pub stream-IsWord :
      (base : Str) (parse_status : StatusParser) (p q : Provider E) (e : Event E)
      → stream_step base parse_status p e ≡ some q
      → IsWord p.stream.log p.cluster.cluster_info
      → IsWord q.stream.log q.cluster.cluster_info
  stream-IsWord base parse_status p q e =
      stream_step-IsKept (λ log s. IsWord log s.cluster_info) IsWord-IsKept base parse_status p e q
