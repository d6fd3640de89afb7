-- ===== src/Services/Mirror.antt =====
-- The cluster's information in src/frontend/src/services/cluster.tsx as a function of what the status
-- stream last told.
use swarm_engine.Prelude.{
  ◌≡◌, refl, sym, ap, ap₂, subst, ◌∙◌, inl, inr, Bool, true, false, Option, none, some, List, [],
  ◌∷◌, Bool-cases, Option-cases, some_inj, all,
}
use swarm_engine.Text.{Str}
use swarm_engine.Json.{Json}
use swarm_engine.StreamClient.{Output, message}
use swarm_engine.Cluster.{
  ModelInfo, ClusterInfo, ClusterState, StatusData, RawModel, LogoUrls, HostType, node, cluster,
  initial_cluster_info, next_cluster_info, loaded, load_models, update_model_list,
}
use swarm_engine.Cluster.ModelName.{sync_lem}
use swarm_engine.Cluster.Info.{
  find_model-nil, ClusterEvent, set_network, set_nodes, set_name, load, stream_error, sync,
  init_now, step, update_info-eq,
}
use swarm_engine.Cluster.Stream.{stream_step}
use swarm_engine.Cluster.Stream.Words.{last_word, IsKept, stream_step-IsKept}
use swarm_engine.Chat.Connection
use swarm_engine.Services.{
  StatusParser, Services, ServicesEvent, is_call, of_stream, of_cluster, of_chat, new_services,
  seen, cluster_view, services_step, services_run,
}
use swarm_engine.Services.Sending.{with_provider-elim, with_chat-elim}

-- What the provider shows of a cluster of which this was told last. The model is looked up in the empty
-- list of the first render.
abbrev pub info_of : Option StatusData → ClusterInfo
info_of none = initial_cluster_info
info_of (some d) = next_cluster_info [] d initial_cluster_info

-- No call of `init` ends.
abbrev pub no_init : {E : Type 0} → ServicesEvent E → Bool
no_init (of_cluster (init_now seen accepted)) = false
no_init _ = true

next-info_of :
    (d : StatusData) (w : Option StatusData) → next_cluster_info [] d (info_of w) ≡ info_of (some d)
unfolding next_cluster_info
next-info_of d none = refl
next-info_of d (some w) = refl

model_info-info_of : (w : Option StatusData) → (info_of w).model_info ≡ none
unfolding next_cluster_info
model_info-info_of none = refl
model_info-info_of (some d) = find_model-nil d.model_name

module _ {E : Type 0} where
  abbrev Mirrors : List (Output (Option StatusData) E) → ClusterState → Type 0
  Mirrors log s = (s.captured ≡ []) × (s.cluster_info ≡ info_of (last_word log))

  heard-Mirrors :
      (m : Option StatusData) (log : List (Output (Option StatusData) E)) (s : ClusterState)
      → Mirrors log s
      → Mirrors (message m ∷ log) (step s (ClusterEvent.message m))
  unfolding step
  heard-Mirrors none log s h = h
  heard-Mirrors (some d) log s (c, i) = (
    c,
    update_info-eq s.captured d s.cluster_info
        ∙ ap₂ (λ models info. next_cluster_info models d info) c i
        ∙ next-info_of d (last_word log),
  )

  Mirrors-IsKept : IsKept Mirrors
  unfolding step
  Mirrors-IsKept = record {
    by_status = λ x log s h. h;
    by_message = heard-Mirrors;
    by_timeout = λ log s h. (h.0, refl);
    by_failure = λ e log s h. (h.0, refl);
  }

  load-Mirrors :
      (log : List (Output (Option StatusData) E)) (u : LogoUrls) (h : HostType)
      (answers : List (Option (List RawModel))) (s : ClusterState)
      → Mirrors log s
      → Mirrors log (update_model_list u h answers s)
  unfolding update_model_list
  load-Mirrors log u node answers s w = w
  load-Mirrors log u cluster answers s w = go (load_models u answers)
    where
      go : (o : Option (List ModelInfo)) → Mirrors log (loaded o s)
      go none = w
      go (some next) = w

  call-Mirrors :
      (log : List (Output (Option StatusData) E)) (s : ClusterState) (e : ClusterEvent)
      → is_call e ≡ true
      → no_init {E = E} (of_cluster e) ≡ true
      → Mirrors log s
      → Mirrors log (step s e)
  unfolding step
  call-Mirrors log s (set_network t) h n w = w
  call-Mirrors log s (set_nodes k) h n w = w
  call-Mirrors log s (set_name m) h n w = w
  call-Mirrors log s (load u t answers) h n w = load-Mirrors log u t answers s w
  call-Mirrors log s (ClusterEvent.message d) h n w = absurd (cc h)
  call-Mirrors log s stream_error h n w = absurd (cc h)
  call-Mirrors log s sync h n w = subst (Mirrors log) (sym (sync_lem s)) w
  call-Mirrors log s (init_now seen accepted) h n w = absurd (cc n)

  abbrev IsMirror : Services E → Type 0
  IsMirror s = Mirrors s.provider.stream.log s.provider.cluster

  module _ (base : Str) (parse_status : StatusParser) (parse_answer : Str → Option Json) where
    step-IsMirror :
        (s : Services E) (e : ServicesEvent E) (t : Services E)
        → services_step base parse_status parse_answer s e ≡ some t
        → no_init e ≡ true
        → IsMirror s
        → IsMirror t
    unfolding services_step
    step-IsMirror s (of_stream e) t h n w =
        with_provider-elim IsMirror s (stream_step base parse_status s.provider e) t h
          λ p k. stream_step-IsKept Mirrors Mirrors-IsKept base parse_status s.provider e p k w
    step-IsMirror s (of_cluster e) t h n w = elim (Bool-cases (is_call e)) [
      | inl k ↦
          subst IsMirror (some_inj (rw (k, services_step) at h))
            (call-Mirrors s.provider.stream.log s.provider.cluster e k n w)
      | inr k ↦ absurd (cc (rw (k, services_step) at h))
    ]
    step-IsMirror s (of_chat e) t h n w =
        with_chat-elim IsMirror s
          (Connection.step parse_answer s.chat
            (seen (cluster_view s.provider.cluster.cluster_info) e))
          t h λ c k. w

    run-IsMirror :
        (s : Services E) (es : List (ServicesEvent E)) (t : Services E)
        → services_run base parse_status parse_answer s es ≡ some t
        → all no_init es ≡ true
        → IsMirror s
        → IsMirror t
    unfolding services_run
    run-IsMirror s [] t h n w = subst IsMirror (some_inj h) w
    run-IsMirror s (e ∷ es) t h n w =
        elim (Option-cases (services_step base parse_status parse_answer s e)) [
          | inl k ↦ absurd (cc (rw (k, services_run) at h))
          | inr (u, k) ↦ elim (Bool-cases (no_init e)) [
            | inr a ↦ absurd (cc (rw a at n))
            | inl a ↦
                run-IsMirror u es t (rw (k, services_run) at h) (rw a at n)
                  (step-IsMirror s e u k a w)
          ]
        ]

    -- While no call of `init` ends, the cluster's information is a function of the last word of the
    -- status stream: that of the message, if a message came last, and the initial one before the first
    -- message and after a failure. Neither the model list, nor the setters, nor the chat, nor earlier
    -- messages leave anything in it; and it never has the record of the model, as the handler looks that
    -- up in the empty list of the first render.
    pub mirrors_word :
        (es : List (ServicesEvent E)) (s : Services E)
        → services_run base parse_status parse_answer new_services es ≡ some s
        → all no_init es ≡ true
        → (s.provider.cluster.cluster_info ≡ info_of (last_word s.provider.stream.log))
          × (s.provider.cluster.cluster_info.model_info ≡ none)
    mirrors_word es s h n =
        let e = (run-IsMirror new_services es s h n (refl, refl)).1 in
        (
          e,
          ap (λ (i : ClusterInfo). i.model_info) e
              ∙ model_info-info_of (last_word s.provider.stream.log),
        )
