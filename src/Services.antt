-- ===== src/Services.antt =====
-- The providers of src/frontend/src/services together, as the chat's pages nest them: `ClusterProvider`
-- with the stream of its status, and `ChatProvider`, which reads the status and the model of the cluster.
pub mod Words
pub mod Sending
pub mod Mirror
use Prim.Native.Nat.{zero, suc, ◌<◌, ◌≤◌, max, min}
use swarm_engine.Prelude.{
  ℕ, ◌+◌, ◌-◌, ◌*◌, ◌/◌, ◌%◌, String, ◌≡◌, refl, sym, ap, ap₂, subst, ◌∙◌, fun_ext, ◌≢◌, ◌↔◌, ◌⊎◌,
  inl, inr, Bool, true, false, not, ◌&&◌, ◌||◌, Option, none, some, List, [], ◌∷◌, ◌++◌, map,
  append-nil, append_assoc, arith, ltb, leb, ◌==◌, if◌then◌else◌, ==_iff, ==_refl, Bool-cases,
  Option-cases, some_inj, lt→ltb, ge→ltb, ltb→lt, ltb→ge, length, get_elem?, take, drop,
  length-append, take-append-drop, length-drop, take-length-append, drop-append_add, last?, init,
  last?-append, init-append, init-append-last, any, all, filter, find, find_index, length-map,
}
use swarm_engine.Text.{Str}
use swarm_engine.Json.{Json}
use swarm_engine.StreamClient.{Event}
use swarm_engine.Cluster.{ClusterStatus, ClusterInfo, StatusData}
use swarm_engine.Cluster.Info.{
  ClusterEvent, set_network, set_nodes, set_name, load, stream_error, sync, init_now, step,
}
use swarm_engine.Cluster.Stream.{Provider, new_provider, stream_step}
use swarm_engine.Chat.{ClusterView}
use swarm_engine.Chat.Provider.{ChatState, new_chat}
use swarm_engine.Chat.Connection
use swarm_engine.Chat.Connection.{ChatEvent, generate_of}

-- `JSON.parse` of a line of the stream, with the test of the message's type.
abbrev pub StatusParser : Type 0
StatusParser = Str → Option (Option StatusData)

pub record Services (E : Type 0) : Type 0 where
  pub provider : Provider E
  pub chat : ChatState

-- `clusterStatus !== 'available'` is the test of the chat.
abbrev is_available : ClusterStatus → Bool
is_available ClusterStatus.available = true
is_available _ = false

-- `clusterInfo: { status: clusterStatus, modelName }` of `useCluster()`
abbrev cluster_view : ClusterInfo → ClusterView
cluster_view i = record { available = is_available i.status; model_name = i.model_name }

-- A call of `generate` sees the cluster as the provider has it.
abbrev seen : ClusterView → ChatEvent → ChatEvent
seen v (generate_of w m t n) = generate_of v m t n
seen v e = e

-- What happens to the cluster without its stream: the calls of its actions and its effects.
abbrev is_call : ClusterEvent → Bool
is_call (ClusterEvent.message d) = false
is_call stream_error = false
is_call _ = true

-- What happens to the services: an event of the status stream, a call for the cluster, and an event of
-- the chat.
pub data ServicesEvent (E : Type 0) : Type 0 where
  of_stream : Event E → ServicesEvent E
  of_cluster : ClusterEvent → ServicesEvent E
  of_chat : ChatEvent → ServicesEvent E

module _ {E : Type 0} where
  abbrev pub new_services : Services E
  new_services = record { provider = new_provider; chat = new_chat }

  abbrev with_provider : Services E → Option (Provider E) → Option (Services E)
  with_provider s none = none
  with_provider s (some p) = some (record s { provider = p })

  abbrev with_chat : Services E → Option ChatState → Option (Services E)
  with_chat s none = none
  with_chat s (some c) = some (record s { chat = c })

  module _ (base : Str) (parse_status : StatusParser) (parse_answer : Str → Option Json) where
    -- One event; `none` if it cannot happen.
    unfoldable pub services_step : Services E → ServicesEvent E → Option (Services E)
    unfolding stream_step step Connection.step
    services_step s (of_stream e) = with_provider s (stream_step base parse_status s.provider e)
    services_step s (of_cluster e) =
        if is_call e
        then some
            (record s { provider = record s.provider { cluster = step s.provider.cluster e } })
        else none
    services_step s (of_chat e) = with_chat s (
        Connection.step parse_answer s.chat (seen (cluster_view s.provider.cluster.cluster_info) e))

    unfoldable pub services_run : Services E → List (ServicesEvent E) → Option (Services E)
    unfolding services_step
    services_run s [] = some s
    services_run s (e ∷ es) = elim (services_step s e) [ none ↦ none | some t ↦ services_run t es ]
