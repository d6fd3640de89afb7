-- ===== src/HttpStream/Messages.antt =====
-- The messages of a stream, in src/frontend/src/services/http-stream.ts.
use swarm_engine.Prelude.{
  ℕ, ◌≡◌, refl, sym, ap, ◌∙◌, Option, none, some, List, [], ◌∷◌, ◌++◌, map, arith,
}
use swarm_engine.Text.{Str}
use swarm_engine.LineBuffer.{feed, feed_all, feed_all-eq-feed, concat}
use swarm_engine.StreamClient.{
  HttpStreamClientOptions, Output, message, Client, chunk, Flight, is_reading, find_flight,
  put_flight, reading, rejecting,
}
use swarm_engine.HttpStream.{on_line, on_lines, on_chunk, step, run_from, run}
use swarm_engine.HttpStream.Timeout.{fires, find_flight-put_flight, id_of_found}

module _ {M E : Type 0} (parse : Str → Option M) where
  -- The messages of some lines, told in turn; a line that does not parse is skipped.
  abbrev pub deliver : List Str → List (Output M E) → List (Output M E)
  deliver [] log = log
  deliver (l ∷ ls) log = deliver ls (elim (parse l) [ none ↦ log | some m ↦ message m ∷ log ])

  deliver-append :
      (ks ls : List Str) (log : List (Output M E))
      → deliver (ks ++ ls) log ≡ deliver ls (deliver ks log)
  deliver-append [] ls log = refl
  deliver-append (k ∷ ks) ls log =
      deliver-append ks ls (elim (parse k) [ none ↦ log | some m ↦ message m ∷ log ])

  log-on_line :
      (l : Str) (c : Client M E)
      → (on_line parse l c).log ≡ (elim (parse l) [ none ↦ c.log | some m ↦ message m ∷ c.log ])
  unfolding on_line
  log-on_line l c = ground arith

  log-on_lines : (ls : List Str) (c : Client M E) → (on_lines parse ls c).log ≡ deliver ls c.log
  unfolding on_lines
  log-on_lines [] c = refl
  log-on_lines (l ∷ ls) c = log-on_lines ls (on_line parse l c) ∙ ap (deliver ls) (log-on_line l c)

  flights-on_lines : (ls : List Str) (c : Client M E) → (on_lines parse ls c).flights ≡ c.flights
  unfolding on_lines
  flights-on_lines [] c = refl
  flights-on_lines (l ∷ ls) c = flights-on_lines ls (on_line parse l c) ∙ unfold_line
    where
      unfold_line : (on_line parse l c).flights ≡ c.flights
      unfold_line = ground arith

  reader-on_lines : (ls : List Str) (c : Client M E) → (on_lines parse ls c).reader ≡ c.reader
  unfolding on_lines
  reader-on_lines [] c = refl
  reader-on_lines (l ∷ ls) c = reader-on_lines ls (on_line parse l c) ∙ unfold_line
    where
      unfold_line : (on_line parse l c).reader ≡ c.reader
      unfold_line = ground arith

  module _ (c : Client M E) (f : Flight) (t : Str) where
    pub log-on_chunk : (on_chunk parse f t c).log ≡ deliver (feed f.buffer t).0 c.log
    unfolding on_chunk
    log-on_chunk = log-on_lines (feed f.buffer t).0 c

    pub reader-on_chunk : (on_chunk parse f t c).reader ≡ c.reader
    unfolding on_chunk
    reader-on_chunk = reader-on_lines (feed f.buffer t).0 c

    pub flight-on_chunk :
        (i j : ℕ)
        → find_flight i c.flights ≡ some f
        → f.phase ≡ reading
        → c.reader ≡ some j
        → find_flight i (on_chunk parse f t c).flights
          ≡ some (record f { buffer = (feed f.buffer t).1 })
    unfolding on_chunk
    flight-on_chunk i j h p r =
        ap (λ fs. find_flight i (put_flight (next c.reader) fs))
          (flights-on_lines (feed f.buffer t).0 c)
        ∙ find_flight-put_flight i (next c.reader) f c.flights h (id_of_found i c.flights f h)
        ∙ ap (λ q. some (record f { phase = q; buffer = (feed f.buffer t).1 })) phase
      where
        next : Option ℕ → Flight
        next o = record f {
          buffer = (feed f.buffer t).1;
          phase = elim o [ none ↦ rejecting | some j ↦ reading ];
        }

        phase : (next c.reader).phase ≡ f.phase
        phase = rw r (sym p)

module _ {M E : Type 0} (options : HttpStreamClientOptions) (parse : Str → Option M) where
  pub step-chunk :
      (c : Client M E) (i : ℕ) (f : Flight) (t : Str)
      → find_flight i c.flights ≡ some f
      → f.phase ≡ reading
      → step options parse c (chunk i t) ≡ some (on_chunk parse f t c)
  unfolding step
  step-chunk c i f t h p =
      fires (find_flight i c.flights) f (λ g. is_reading g.phase) (λ g. on_chunk parse g t c) h
        (ap is_reading p)

  chunks_run :
      (c : Client M E) (i j : ℕ) (f : Flight) (texts : List Str)
      → find_flight i c.flights ≡ some f
      → f.phase ≡ reading
      → c.reader ≡ some j
      → (c' : Client M E) × (run_from options parse (some c) (map (λ t. chunk i t) texts) ≡ some c')
        × (c'.log ≡ deliver parse (feed_all f.buffer texts).0 c.log)
        × (find_flight i c'.flights ≡ some (record f { buffer = (feed_all f.buffer texts).1 }))
  unfolding run_from feed_all
  chunks_run c i j f [] h p r = (c, refl, refl, h)
  chunks_run c i j f (t ∷ ts) h p r =
      let d = on_chunk parse f t c in
      let (c', ran, log, found) =
        chunks_run d i j (record f { buffer = (feed f.buffer t).1 }) ts
          (flight-on_chunk parse c f t i j h p r) p (reader-on_chunk parse c f t ∙ r) in
      (
        c',
        ap (λ o. run_from options parse o (map (λ t. chunk i t) ts)) (step-chunk c i f t h p) ∙ ran,
        log
            ∙ ap (deliver parse (feed_all (feed f.buffer t).1 ts).0) (log-on_chunk parse c f t)
            ∙ sym (
                deliver-append parse (feed f.buffer t).0 (feed_all (feed f.buffer t).1 ts).0 c.log),
        found,
      )

  -- Reading a stream chunk by chunk, with no other event in between, tells the owner the messages of
  -- the complete lines of the whole text, in order, and leaves its last line in the buffer: neither
  -- depends on how the text is cut into chunks. The request reads with an empty buffer at the start.
  chunks_deliver :
      (c : Client M E) (i j : ℕ) (f : Flight) (texts : List Str)
      → find_flight i c.flights ≡ some f
      → f.phase ≡ reading
      → f.buffer ≡ []
      → c.reader ≡ some j
      → (c' : Client M E) × (run options parse c (map (λ t. chunk i t) texts) ≡ some c')
        × (c'.log ≡ deliver parse (feed [] (concat texts)).0 c.log)
        × (find_flight i c'.flights ≡ some (record f { buffer = (feed [] (concat texts)).1 }))
  unfolding run
  chunks_deliver c i j f texts h p b r =
      let (c', ran, log, found) = chunks_run c i j f texts h p r in
      let whole : feed_all f.buffer texts ≡ feed [] (concat texts) =
        ap (λ x. feed_all x texts) b ∙ feed_all-eq-feed texts in
      (
        c',
        ran,
        log ∙ ap (λ (x : List Str × Str). deliver parse x.0 c.log) whole,
        found ∙ ap (λ (x : List Str × Str). some (record f { buffer = x.1 })) whole,
      )
