-- ===== src/Cluster/Stream/Delivery.antt =====
-- The cluster of src/frontend/src/services/cluster.tsx while its status stream is read.
use swarm_engine.Prelude.{ℕ, ◌≡◌, refl, sym, ap, ◌∙◌, Option, none, some, List, [], ◌∷◌, ◌++◌, map}
use swarm_engine.Text.{Str}
use swarm_engine.LineBuffer.{feed, feed_all, feed_all-eq-feed, concat}
use swarm_engine.StreamClient.{chunk, Flight, find_flight, reading}
use swarm_engine.HttpStream.{on_chunk}
use swarm_engine.HttpStream.Messages.{reader-on_chunk, flight-on_chunk, step-chunk}
use swarm_engine.Cluster.{ClusterState, StatusData}
use swarm_engine.Cluster.Info
use swarm_engine.Cluster.Info.{ClusterEvent, run}
use swarm_engine.Cluster.Stream.{Provider, stream_options, stream_step, stream_run, advanced}
use swarm_engine.Cluster.Stream.Updates.{messages_of, and_message, lines_heard, stream_step_hears}

and_message-append :
    (o : Option (Option StatusData)) (xs ys : List ClusterEvent)
    → and_message o (xs ++ ys) ≡ and_message o xs ++ ys
and_message-append none xs ys = refl
and_message-append (some m) xs ys = refl

messages_of-append :
    (parse : Str → Option (Option StatusData)) (ks ls : List Str)
    → messages_of parse (ks ++ ls) ≡ messages_of parse ks ++ messages_of parse ls
messages_of-append parse [] ls = refl
messages_of-append parse (k ∷ ks) ls =
    ap (and_message (parse k)) (messages_of-append parse ks ls)
    ∙ and_message-append (parse k) (messages_of parse ks) (messages_of parse ls)

run-append : (xs ys : List ClusterEvent) (s : ClusterState) → run s (xs ++ ys) ≡ run (run s xs) ys
unfolding run
run-append [] ys s = refl
run-append (x ∷ xs) ys s = run-append xs ys (Info.step s x)

module _ {E : Type 0} (base : Str) (parse : Str → Option (Option StatusData)) where
  stream_step-chunk :
      (p : Provider E) (i : ℕ) (f : Flight) (t : Str)
      → find_flight i p.stream.flights ≡ some f
      → f.phase ≡ reading
      → stream_step base parse p (chunk i t) ≡ some (advanced p (on_chunk parse f t p.stream))
  unfolding stream_step
  stream_step-chunk p i f t h k =
      rw (step-chunk (stream_options base) parse p.stream i f t h k, stream_step) refl

  chunks_heard :
      (p : Provider E) (i j : ℕ) (f : Flight) (texts : List Str)
      → find_flight i p.stream.flights ≡ some f
      → f.phase ≡ reading
      → p.stream.reader ≡ some j
      → (q : Provider E) × (stream_run base parse p (map (λ t. chunk i t) texts) ≡ some q)
        × (q.cluster ≡ run p.cluster (messages_of parse (feed_all f.buffer texts).0))
  unfolding stream_run feed_all run
  chunks_heard p i j f [] h k r = (p, refl, refl)
  chunks_heard p i j f (t ∷ ts) h k r =
      let c = on_chunk parse f t p.stream in
      let lines = (feed f.buffer t).0 in
      let stepped = stream_step-chunk p i f t h k in
      let (q, ran, heard) =
        chunks_heard (advanced p c) i j (record f { buffer = (feed f.buffer t).1 }) ts
          (flight-on_chunk parse p.stream f t i j h k r) k
          (reader-on_chunk parse p.stream f t ∙ r) in
      (
        q,
        rw (stepped, stream_run) ran,
        heard
            ∙ ap (λ s. run s (messages_of parse (feed_all (feed f.buffer t).1 ts).0))
                (stream_step_hears base parse p (chunk i t) stepped
                  ∙ ap (λ o. run p.cluster (lines_heard parse t o)) h)
            ∙ sym (
                run-append (messages_of parse lines)
                  (messages_of parse (feed_all (feed f.buffer t).1 ts).0) p.cluster)
            ∙ ap (run p.cluster)
                (sym (messages_of-append parse lines (feed_all (feed f.buffer t).1 ts).0)),
      )

  -- While the status stream is read chunk by chunk, with no other event in between, the cluster takes
  -- in the messages of the complete lines of the whole text, in order, however the text is cut into
  -- chunks. The request reads with an empty buffer at the start.
  pub chunks_hear :
      (p : Provider E) (i j : ℕ) (f : Flight) (texts : List Str)
      → find_flight i p.stream.flights ≡ some f
      → f.phase ≡ reading
      → f.buffer ≡ []
      → p.stream.reader ≡ some j
      → (q : Provider E) × (stream_run base parse p (map (λ t. chunk i t) texts) ≡ some q)
        × (q.cluster ≡ run p.cluster (messages_of parse (feed [] (concat texts)).0))
  chunks_hear p i j f texts h k b r =
      let (q, ran, heard) = chunks_heard p i j f texts h k r in
      (
        q,
        ran,
        heard
            ∙ ap (λ (x : List Str × Str). run p.cluster (messages_of parse x.0))
                (ap (λ x. feed_all x texts) b ∙ feed_all-eq-feed texts),
      )
