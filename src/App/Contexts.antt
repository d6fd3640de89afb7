-- ===== src/App/Contexts.antt =====
-- The contexts of src/frontend/src/services: `useHost`, `useCluster` and `useChat` throw outside of their
-- providers, which use each other's.
use swarm_engine.Prelude.{◌≡◌, refl, Bool, true, false, ◌&&◌, List, [], ◌∷◌, ◌++◌, any, all}
use swarm_engine.Cluster.{HostType}
use swarm_engine.App.{Layer, host_provider, cluster_provider, chat_provider, providers}

pub data Context : Type 0 where
  host_context cluster_context chat_context : Context

abbrev provides : Layer → Context → Bool
provides (host_provider h) host_context = true
provides cluster_provider cluster_context = true
provides chat_provider chat_context = true
provides _ c = false

-- `useContext` below some layers: whether the context has a value, without which the hook throws.
abbrev has_context : List Layer → Context → Bool
has_context layers c = any (λ l. provides l c) layers

-- The hooks that the provider of a layer calls itself.
abbrev used_by : Layer → List Context
used_by cluster_provider = host_context ∷ []
used_by chat_provider = cluster_context ∷ []
used_by _ = []

-- Below the layers `above`, none of the layers throws.
unfoldable nests : List Layer → List Layer → Bool
nests above [] = true
nests above (l ∷ ls) = all (has_context above) (used_by l) && nests (above ++ l ∷ []) ls

-- On any host the providers stand in an order in which none of them throws, and below them no hook does.
providers-nests :
    (h : HostType) (c : Context)
    → (nests [] (providers h) ≡ true) × (has_context (providers h) c ≡ true)
unfolding nests
providers-nests h host_context = (refl, refl)
providers-nests h cluster_context = (refl, refl)
providers-nests h chat_context = (refl, refl)

-- The provider of the chat cannot stand outside that of the cluster.
chat_outside :
    (h : HostType) → nests [] (host_provider h ∷ chat_provider ∷ cluster_provider ∷ []) ≡ false
unfolding nests
chat_outside h = refl
