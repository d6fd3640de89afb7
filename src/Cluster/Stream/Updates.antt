-- ===== src/Cluster/Stream/Updates.antt =====
-- What each event of the status stream makes of the cluster of src/frontend/src/services/cluster.tsx.
use swarm_engine.Prelude.{
  ◌≡◌, refl, sym, ap, ◌∙◌, inl, inr, Option, none, some, List, [], ◌∷◌, ◌++◌, append-nil,
  append_assoc, arith, Option-cases, some_inj, length, take, length-append, take-length-append,
}
use swarm_engine.Text.{Str}
use swarm_engine.LineBuffer.{feed}
use swarm_engine.StreamClient.{
  Output, status, message, timed_out, failed, Event, send, abort, reconnect, timeout, response,
  chunk, done, reject, finish, Flight, find_flight,
}
use swarm_engine.HttpStream.{step}
use swarm_engine.HttpStream.Messages.{deliver}
use swarm_engine.HttpStream.Told.{speech, Speaks, speech_of, step-Speaks, lines_said}
use swarm_engine.Cluster.{StatusData}
use swarm_engine.Cluster.Info.{ClusterEvent, stream_error, run}
use swarm_engine.Cluster.Stream.{Provider, stream_options, stream_step, heard, told_since}

abbrev pub and_message : Option (Option StatusData) → List ClusterEvent → List ClusterEvent
and_message none es = es
and_message (some m) es = ClusterEvent.message m ∷ es

-- The messages of some lines; a line that does not parse is skipped.
abbrev pub messages_of : (Str → Option (Option StatusData)) → List Str → List ClusterEvent
messages_of parse [] = []
messages_of parse (l ∷ ls) = and_message (parse l) (messages_of parse ls)

abbrev pub lines_heard :
    (Str → Option (Option StatusData)) → Str → Option Flight → List ClusterEvent
lines_heard parse t none = []
lines_heard parse t (some f) = messages_of parse (feed f.buffer t).0

-- What the cluster hears of an event of the stream: the complete lines of a chunk, or a failure.
abbrev pub heard_by :
    {E : Type 0} → (Str → Option (Option StatusData)) → List Flight → Event E → List ClusterEvent
heard_by parse fs (chunk i t) = lines_heard parse t (find_flight i fs)
heard_by parse fs (timeout i) = stream_error ∷ []
heard_by parse fs (reject i e ok) = stream_error ∷ []
heard_by parse fs _ = []

module _ {E : Type 0} where
  heard-speech : (os : List (Output (Option StatusData) E)) → heard (speech os) ≡ heard os
  heard-speech [] = refl
  heard-speech (status s ∷ os) = heard-speech os ∙ sym (append-nil (heard os))
  heard-speech (message m ∷ os) = ap (λ es. es ++ ClusterEvent.message m ∷ []) (heard-speech os)
  heard-speech (timed_out ∷ os) = ap (λ es. es ++ stream_error ∷ []) (heard-speech os)
  heard-speech (failed e ∷ os) = ap (λ es. es ++ stream_error ∷ []) (heard-speech os)

  heard-deliver :
      (parse : Str → Option (Option StatusData)) (ls : List Str)
      (os : List (Output (Option StatusData) E))
      → heard (deliver parse ls os) ≡ heard os ++ messages_of parse ls
  heard-deliver parse [] os = sym (append-nil (heard os))
  heard-deliver parse (l ∷ ls) os = elim (Option-cases (parse l)) [
    | inl e ↦ rw e (heard-deliver parse ls os)
    | inr (m, e) ↦ rw e (
        heard-deliver parse ls (message m ∷ os)
        ∙ append_assoc (heard os) (ClusterEvent.message m ∷ []) (messages_of parse ls))
  ]

  pub told_since-append :
      (old os : List (Output (Option StatusData) E)) → told_since (length old) (os ++ old) ≡ os
  told_since-append old os =
      ap (λ n. take n (os ++ old)) {y = length os} (omega (arith, length-append os old))
      ∙ take-length-append os old

  heard-Speaks :
      (old said new : List (Output (Option StatusData) E))
      → Speaks old said new
      → heard (told_since (length old) new) ≡ heard said
  heard-Speaks old said new k =
      ap (λ l. heard (told_since (length old) l)) k.added
      ∙ ap heard (told_since-append old k.outputs)
      ∙ sym (heard-speech k.outputs)
      ∙ ap heard k.sound

heard-lines :
    (E : Type 0) (parse : Str → Option (Option StatusData)) (t : Str) (o : Option Flight)
    → heard (lines_said {E = E} parse t o) ≡ lines_heard parse t o
heard-lines E parse t none = refl
heard-lines E parse t (some f) = heard-deliver {E = E} parse (feed f.buffer t).0 []

module _ {E : Type 0} where
  heard-event :
      (parse : Str → Option (Option StatusData)) (fs : List Flight) (e : Event E)
      → heard (speech_of parse fs e) ≡ heard_by parse fs e
  heard-event parse fs (chunk i t) = heard-lines E parse t (find_flight i fs)
  heard-event parse fs (timeout i) = refl
  heard-event parse fs (reject i x ok) = refl
  heard-event parse fs (send o) = refl
  heard-event parse fs abort = refl
  heard-event parse fs reconnect = refl
  heard-event parse fs (response i r) = refl
  heard-event parse fs (done i ok) = refl
  heard-event parse fs (finish i ok) = refl

  module _ (base : Str) (parse : Str → Option (Option StatusData)) where
    -- An event of the status stream that can happen changes the cluster's state as these events do: the
    -- messages of the complete lines of a chunk, in order, and one error for a timeout and for a
    -- rejected request. Nothing else that happens to the stream changes it: not a response that is
    -- refused, not the end of the stream, not a reconnect and not an abort.
    pub stream_step_hears :
        (p : Provider E) (e : Event E) {q : Provider E}
        → stream_step base parse p e ≡ some q
        → q.cluster ≡ run p.cluster (heard_by parse p.stream.flights e)
    unfolding stream_step
    stream_step_hears p e {q} h =
        elim (Option-cases (step (stream_options base) parse p.stream e)) [
          | inl k ↦ absurd (stuck (rw (k, stream_step) at h))
          | inr (c, k) ↦
              ap (λ (r : Provider E). r.cluster) (sym (some_inj (rw (k, stream_step) at h)))
              ∙ ap (run p.cluster) (
                  heard-Speaks p.stream.log (speech_of parse p.stream.flights e) c.log
                    (step-Speaks (stream_options base) parse p.stream e k)
                  ∙ heard-event parse p.stream.flights e)
        ]
      where
        stuck : none ≡ some q → ⊥
        stuck h = cc
