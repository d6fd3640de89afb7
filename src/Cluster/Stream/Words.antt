-- ===== src/Cluster/Stream/Words.antt =====
-- What the status stream of src/frontend/src/services/cluster.tsx last told, and relations between what it
-- told and the cluster's state that its callbacks keep.
use swarm_engine.Prelude.{
  ◌≡◌, sym, subst, inl, inr, Option, none, some, List, [], ◌∷◌, ◌++◌, append-nil, Option-cases,
  some_inj, length,
}
use swarm_engine.Text.{Str}
use swarm_engine.StreamClient.{
  HttpStreamClientStatus, Output, status, message, timed_out, failed, Event,
}
use swarm_engine.HttpStream
use swarm_engine.HttpStream.Told.{step-Speaks}
use swarm_engine.Cluster.{ClusterState, StatusData}
use swarm_engine.Cluster.Info.{ClusterEvent, stream_error, step, run, run-last}
use swarm_engine.Cluster.Stream.{Provider, stream_options, stream_step, heard, told_since}
use swarm_engine.Cluster.Stream.Updates.{told_since-append}

module _ {E : Type 0} where
  -- The last status message, if no failure came after it; the last output stands first.
  abbrev pub last_word : List (Output (Option StatusData) E) → Option StatusData
  last_word [] = none
  last_word (status s ∷ os) = last_word os
  last_word (message none ∷ os) = last_word os
  last_word (message (some d) ∷ os) = some d
  last_word (timed_out ∷ os) = none
  last_word (failed e ∷ os) = none

  -- A relation between a log and a state that each output keeps, with what the provider makes of it.
  pub record IsKept (P : List (Output (Option StatusData) E) → ClusterState → Type 0) : Type 0 where
    pub by_status :
        (x : HttpStreamClientStatus) (log : List (Output (Option StatusData) E)) (s : ClusterState)
        → P log s
        → P (status x ∷ log) s
    pub by_message :
        (m : Option StatusData) (log : List (Output (Option StatusData) E)) (s : ClusterState)
        → P log s
        → P (message m ∷ log) (step s (ClusterEvent.message m))
    pub by_timeout :
        (log : List (Output (Option StatusData) E)) (s : ClusterState)
        → P log s
        → P (timed_out ∷ log) (step s stream_error)
    pub by_failure :
        (e : E) (log : List (Output (Option StatusData) E)) (s : ClusterState)
        → P log s
        → P (failed e ∷ log) (step s stream_error)

  module _ (P : List (Output (Option StatusData) E) → ClusterState → Type 0) (kept : IsKept P) where
    outputs-IsKept :
        (os log : List (Output (Option StatusData) E)) (s : ClusterState)
        → P log s
        → P (os ++ log) (run s (heard os))
    unfolding run
    outputs-IsKept [] log s w = w
    outputs-IsKept (status x ∷ os) log s w =
        subst (λ es. P (status x ∷ os ++ log) (run s es)) (sym (append-nil (heard os)))
          (kept.by_status x (os ++ log) (run s (heard os)) (outputs-IsKept os log s w))
    outputs-IsKept (message m ∷ os) log s w =
        subst (P (message m ∷ os ++ log)) (sym (run-last s (heard os) (ClusterEvent.message m)))
          (kept.by_message m (os ++ log) (run s (heard os)) (outputs-IsKept os log s w))
    outputs-IsKept (timed_out ∷ os) log s w =
        subst (P (timed_out ∷ os ++ log)) (sym (run-last s (heard os) stream_error))
          (kept.by_timeout (os ++ log) (run s (heard os)) (outputs-IsKept os log s w))
    outputs-IsKept (failed x ∷ os) log s w =
        subst (P (failed x ∷ os ++ log)) (sym (run-last s (heard os) stream_error))
          (kept.by_failure x (os ++ log) (run s (heard os)) (outputs-IsKept os log s w))

    grown-IsKept :
        (p : Provider E) (os log : List (Output (Option StatusData) E))
        → log ≡ os ++ p.stream.log
        → P p.stream.log p.cluster
        → P log (run p.cluster (heard (told_since (length p.stream.log) log)))
    grown-IsKept p os log e w =
        subst (λ l. P l (run p.cluster (heard (told_since (length p.stream.log) l)))) (sym e)
          (subst (λ said. P (os ++ p.stream.log) (run p.cluster (heard said)))
            (sym (told_since-append p.stream.log os)) (outputs-IsKept os p.stream.log p.cluster w))

    -- An event of the stream keeps the relation.
    pub stream_step-IsKept :
        (base : Str) (parse : Str → Option (Option StatusData)) (p : Provider E) (e : Event E)
        (q : Provider E)
        → stream_step base parse p e ≡ some q
        → P p.stream.log p.cluster
        → P q.stream.log q.cluster
    unfolding stream_step
    stream_step-IsKept base parse p e q h w =
        elim (Option-cases (HttpStream.step (stream_options base) parse p.stream e)) [
          | inl k ↦ absurd (cc (rw (k, stream_step) at h))
          | inr (c, k) ↦
              let said = step-Speaks (stream_options base) parse p.stream e k in
              subst (λ (r : Provider E). P r.stream.log r.cluster)
                (some_inj (rw (k, stream_step) at h))
                (grown-IsKept p said.outputs c.log said.added w)
        ]
