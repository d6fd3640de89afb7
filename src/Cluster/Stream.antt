-- ===== src/Cluster/Stream.antt =====
-- src/frontend/src/services/cluster.tsx with the stream of the cluster's status: the provider owns a
-- client of services/http-stream.ts, and what the client tells it becomes its events. `parse` is
-- `JSON.parse` and the test of the message's type, and `base` is `API_BASE_URL` of services/api.ts.
pub mod Updates
pub mod Delivery
pub mod Words
use Prim.Native.Nat.{zero, suc, ◌<◌, ◌≤◌, max, min}
use swarm_engine.Prelude.{
  ℕ, ◌+◌, ◌-◌, ◌*◌, ◌/◌, ◌%◌, String, ◌≡◌, refl, sym, ap, ap₂, subst, ◌∙◌, fun_ext, ◌≢◌, ◌↔◌, ◌⊎◌,
  inl, inr, Bool, true, false, not, ◌&&◌, ◌||◌, Option, none, some, List, [], ◌∷◌, ◌++◌, map,
  append-nil, append_assoc, arith, ltb, leb, ◌==◌, if◌then◌else◌, ==_iff, ==_refl, Bool-cases,
  Option-cases, some_inj, lt→ltb, ge→ltb, ltb→lt, ltb→ge, length, get_elem?, take, drop,
  length-append, take-append-drop, length-drop, take-length-append, drop-append_add, last?, init,
  last?-append, init-append, init-append-last, any, all, filter, find, find_index, length-map,
}
use swarm_engine.Text.{Str, codes}
use swarm_engine.StreamClient.{
  HttpStreamClientOptions, Output, status, message, timed_out, failed, Client, Event, send,
}
use swarm_engine.HttpStream.{step, new_client}
use swarm_engine.Cluster.{ClusterState, StatusData, initial_state}
use swarm_engine.Cluster.Info.{ClusterEvent, stream_error, run}

-- `createStreamClusterStatus`, with the options of the provider.
abbrev pub stream_options : Str → HttpStreamClientOptions
stream_options base = record {
  url = base ++ codes "/cluster/status";
  method = codes "GET";
  auto_reconnect = true;
}

pub record Provider (E : Type 0) : Type 0 where
  pub stream : Client (Option StatusData) E
  pub cluster : ClusterState

module _ {E : Type 0} where
  abbrev pub new_provider : Provider E
  new_provider = record { stream = new_client; cluster = initial_state }

  -- What the client's callbacks make of the provider: it passes no `onStatusChange`, and resets itself
  -- in `onError`.
  abbrev heard_of : Output (Option StatusData) E → List ClusterEvent
  heard_of (status s) = []
  heard_of (message m) = ClusterEvent.message m ∷ []
  heard_of timed_out = stream_error ∷ []
  heard_of (failed e) = stream_error ∷ []

  -- In the order of the calls; the last output stands first.
  abbrev pub heard : List (Output (Option StatusData) E) → List ClusterEvent
  heard [] = []
  heard (o ∷ os) = heard os ++ heard_of o

  -- What a client has told since its log had `n` entries.
  abbrev pub told_since :
      ℕ → List (Output (Option StatusData) E) → List (Output (Option StatusData) E)
  told_since n log = take (length log - n) log

  abbrev advanced : Provider E → Client (Option StatusData) E → Provider E
  advanced p c = record {
    stream = c;
    cluster = run p.cluster (heard (told_since (length p.stream.log) c.log));
  }

  -- An event of the stream, with the callbacks that it makes.
  unfoldable pub stream_step :
      Str → (Str → Option (Option StatusData)) → Provider E → Event E → Option (Provider E)
  unfolding step run
  stream_step base parse p e = elim (step (stream_options base) parse p.stream e) [
    | none ↦ none
    | some c ↦ some (advanced p c)
  ]

  unfoldable pub stream_run :
      Str → (Str → Option (Option StatusData)) → Provider E → List (Event E) → Option (Provider E)
  unfolding stream_step
  stream_run base parse p [] = some p
  stream_run base parse p (e ∷ es) = elim (stream_step base parse p e) [
    | none ↦ none
    | some q ↦ stream_run base parse q es
  ]

  -- The effect of the first render.
  unfoldable mount : Str → (Str → Option (Option StatusData)) → Option (Provider E)
  unfolding stream_step
  mount base parse = stream_step base parse new_provider (send none)
