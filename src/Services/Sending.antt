-- ===== src/Services/Sending.antt =====
-- When the chat of src/frontend/src/services/chat.tsx may send a request.
use swarm_engine.Prelude.{
  ℕ, ◌≡◌, refl, subst, ◌⊎◌, inl, inr, true, Option, none, some, List, [], ◌∷◌, map, Bool-cases,
  Option-cases, some_inj,
}
use swarm_engine.Text.{Str}
use swarm_engine.Json.{Json}
use swarm_engine.Cluster.{ClusterStatus, StatusData, status_of, text_or_empty}
use swarm_engine.Cluster.Info.{ClusterEvent}
use swarm_engine.Cluster.Stream.{Provider, stream_step}
use swarm_engine.Chat.{ChatMessage, ChatRequest}
use swarm_engine.Chat.Provider.{ChatState, to_request}
use swarm_engine.Chat.Actions.{IsSent}
use swarm_engine.Chat.Requests.{Keeps, Sends, step-Sends}
use swarm_engine.Chat.Connection
use swarm_engine.Chat.Connection.{
  ChatEvent, generate_of, set_input, stop_now, clear_now, response, chunk, done, reject,
}
use swarm_engine.Services.{
  StatusParser, Services, is_available, cluster_view, seen, is_call, ServicesEvent, of_stream,
  of_cluster, of_chat, new_services, with_provider, with_chat, services_step, services_run,
}
use swarm_engine.Cluster.Stream.Words.{last_word}
use swarm_engine.Services.Words.{IsWord, call-IsWord, stream-IsWord}

eq_of_is_available : (c : ClusterStatus) → is_available c ≡ true → c ≡ ClusterStatus.available
eq_of_is_available ClusterStatus.available h = refl
eq_of_is_available _ h = absurd (cc h)

module _ {E : Type 0} where
  -- A request that the last word of the status stream allows, with the model that it names.
  pub record IsAllowed (s t : Services E) : Type 0 where
    pub word : StatusData
    pub request : ChatRequest
    pub told : last_word s.provider.stream.log ≡ some word
    pub available : status_of word.model_name word.status ≡ ClusterStatus.available
    pub sent : t.chat.requests ≡ request ∷ s.chat.requests
    pub model : request.model ≡ text_or_empty word.model_name

  abbrev IsAware : Services E → Type 0
  IsAware s = IsWord s.provider.stream.log s.provider.cluster.cluster_info

  pub with_provider-elim :
      (P : Services E → Type 0) (s : Services E) (o : Option (Provider E)) (t : Services E)
      → with_provider s o ≡ some t
      → ((p : Provider E) → o ≡ some p → P (record s { provider = p }))
      → P t
  with_provider-elim P s none t h k = absurd (cc h)
  with_provider-elim P s (some p) t h k = subst P (some_inj h) (k p refl)

  pub with_chat-elim :
      (P : Services E → Type 0) (s : Services E) (o : Option ChatState) (t : Services E)
      → with_chat s o ≡ some t
      → ((c : ChatState) → o ≡ some c → P (record s { chat = c }))
      → P t
  with_chat-elim P s none t h k = absurd (cc h)
  with_chat-elim P s (some c) t h k = subst P (some_inj h) (k c refl)

  allowed :
      (s : Services E) (m : Option ChatMessage) (x : Str) (n : ℕ) (c : ChatState)
      → IsAware s
      → IsSent (cluster_view s.provider.cluster.cluster_info) m x n s.chat c
      → IsAllowed s (record s { chat = c })
  allowed s m x n c w i =
      let info = s.provider.cluster.cluster_info in
      let (d, told, available, model) = w (eq_of_is_available info.status i.available) in
      record {
        word = d;
        request = record { model = info.model_name; messages = map to_request c.messages };
        told = told;
        available = available;
        sent = i.sent;
        model = model;
      }

  chat-Allowed :
      (s : Services E) (e : ChatEvent) (c : ChatState)
      → IsAware s
      → Sends s.chat (seen (cluster_view s.provider.cluster.cluster_info) e) c
      → Keeps s.chat c ⊎ IsAllowed s (record s { chat = c })
  chat-Allowed s (generate_of v m x n) c w (inl k) = inl k
  chat-Allowed s (generate_of v m x n) c w (inr i) = inr (allowed s m x n c w i)
  chat-Allowed s (set_input x) c w k = inl k
  chat-Allowed s stop_now c w k = inl k
  chat-Allowed s clear_now c w k = inl k
  chat-Allowed s (response i r) c w k = inl k
  chat-Allowed s (chunk i x) c w k = inl k
  chat-Allowed s (done i) c w k = inl k
  chat-Allowed s (reject i r) c w k = inl k

  module _ (base : Str) (parse_status : StatusParser) (parse_answer : Str → Option Json) where
    call-IsAware :
        (s : Services E) (e : ClusterEvent) (t : Services E)
        → services_step base parse_status parse_answer s (of_cluster e) ≡ some t
        → IsAware s
        → IsAware t × Keeps s.chat t.chat
    unfolding services_step
    call-IsAware s e t h w = elim (Bool-cases (is_call e)) [
      | inl k ↦
          subst (λ u. IsAware u × Keeps s.chat u.chat) (some_inj (rw (k, services_step) at h))
            (call-IsWord s.provider.stream.log s.provider.cluster e k w, refl)
      | inr k ↦ absurd (cc (rw (k, services_step) at h))
    ]

    step-Allowed :
        (s : Services E) (e : ServicesEvent E) (t : Services E)
        → services_step base parse_status parse_answer s e ≡ some t
        → IsAware s
        → IsAware t × (Keeps s.chat t.chat ⊎ IsAllowed s t)
    unfolding services_step
    step-Allowed s (of_stream e) t h w =
        with_provider-elim (λ u. IsAware u × (Keeps s.chat u.chat ⊎ IsAllowed s u)) s
          (stream_step base parse_status s.provider e) t h
          λ p k. (stream-IsWord base parse_status s.provider p e k w, inl refl)
    step-Allowed s (of_cluster e) t h w = let (aware, k) = call-IsAware s e t h w in (aware, inl k)
    step-Allowed s (of_chat e) t h w =
        let v = cluster_view s.provider.cluster.cluster_info in
        with_chat-elim (λ u. IsAware u × (Keeps s.chat u.chat ⊎ IsAllowed s u)) s
          (Connection.step parse_answer s.chat (seen v e)) t h
          λ c k. (w, chat-Allowed s e c w (step-Sends parse_answer s.chat (seen v e) c k))

    run-IsAware :
        (s : Services E) (es : List (ServicesEvent E)) (t : Services E)
        → services_run base parse_status parse_answer s es ≡ some t
        → IsAware s
        → IsAware t
    unfolding services_run
    run-IsAware s [] t h w = subst IsAware (some_inj h) w
    run-IsAware s (e ∷ es) t h w =
        elim (Option-cases (services_step base parse_status parse_answer s e)) [
          | inl k ↦ absurd (cc (rw (k, services_run) at h))
          | inr (u, k) ↦ run-IsAware u es t (rw (k, services_run) at h) (step-Allowed s e u k w).0
        ]

    -- Whatever happened to the providers since they were mounted, an event sends a chat request only if
    -- the last thing that the status stream told, failures included, is a message by which the cluster is
    -- available, and the request is for the model of that message. So after a timeout or a failure of the
    -- stream no request is sent until the next such message.
    pub sends_while_told :
        (es : List (ServicesEvent E)) (s : Services E) (e : ServicesEvent E) (t : Services E)
        → services_run base parse_status parse_answer new_services es ≡ some s
        → services_step base parse_status parse_answer s e ≡ some t
        → (t.chat.requests ≡ s.chat.requests) ⊎ IsAllowed s t
    sends_while_told es s e t h k =
        (step-Allowed s e t k (run-IsAware new_services es s h λ a. absurd (cc a))).1
