-- ===== src/Chat/Connection/Reads.antt =====
-- Reading an answer chunk by chunk: the read loop of `createSSE` in src/frontend/src/services/chat.tsx.
use swarm_engine.Prelude.{
  ℕ, ◌≡◌, refl, sym, ap, subst, ◌∙◌, inl, inr, Bool, true, false, Option, none, some, List, [], ◌∷◌,
  ◌++◌, arith, ◌==◌, if◌then◌else◌, ==_iff, ==_refl, Bool-cases, Option-cases, some_inj,
}
use swarm_engine.Text.{Str}
use swarm_engine.LineBuffer.{feed, feed_all, concat, feed_all-eq-feed}
use swarm_engine.Json.{Json}
use swarm_engine.Sse.{SseMessage, process_lines}
use swarm_engine.Sse.Append.{AllData, AllData-append, process_lines-append, process_lines-nil}
use swarm_engine.Chat.Provider.{ChatFlight, ChatState, on_error}
use swarm_engine.Chat.Connection.{
  Reading, ignored, throws, updater_throws, chunk_of, read_body, on_reading, on_messages,
  find_flight, put_flight, over, after_chunk, on_chunk, chunk, on_flight, step,
}

-- The chunks of request `i` in turn, with no other event in between.
unfoldable pub read_chunks : (Str → Option Json) → ℕ → List Str → ChatState → Option ChatState
unfolding step
read_chunks parse i [] s = some s
read_chunks parse i (t ∷ ts) s = elim (step parse s (chunk i t)) [
  | none ↦ none
  | some u ↦ read_chunks parse i ts u
]

abbrev with_flights : List ChatFlight → ChatState → ChatState
with_flights fs s = record s { flights = fs }

abbrev both : List ChatFlight → ChatState × Bool → ChatState × Bool
both fs o = (with_flights fs o.0, o.1)

abbrev then_messages : List SseMessage → ChatState × Bool → ChatState × Bool
then_messages ms (s, true) = (s, true)
then_messages ms (s, false) = on_messages ms s

on_messages-append :
    (xs ys : List SseMessage) (s : ChatState)
    → on_messages (xs ++ ys) s ≡ then_messages ys (on_messages xs s)
unfolding on_messages
on_messages-append [] ys s = refl
on_messages-append (x ∷ xs) ys s = elim (Option-cases (on_reading (read_body x.body) s)) [
  | inl e ↦ rw (e, on_messages) refl
  | inr (u, e) ↦ rw (e, on_messages) (on_messages-append xs ys u)
]

abbrev lifted : List ChatFlight → Option ChatState → Option ChatState
lifted fs none = none
lifted fs (some u) = some (with_flights fs u)

on_reading-with_flights :
    (r : Reading) (fs : List ChatFlight) (s : ChatState)
    → on_reading r (with_flights fs s) ≡ lifted fs (on_reading r s)
unfolding on_reading
on_reading-with_flights ignored fs s = refl
on_reading-with_flights throws fs s = refl
on_reading-with_flights (updater_throws b) fs s = refl
on_reading-with_flights (chunk_of b c) fs s = refl

-- The messages of a chunk do not look at the requests in flight.
on_messages-with_flights :
    (ms : List SseMessage) (fs : List ChatFlight) (s : ChatState)
    → on_messages ms (with_flights fs s) ≡ both fs (on_messages ms s)
unfolding on_messages
on_messages-with_flights [] fs s = refl
on_messages-with_flights (m ∷ ms) fs s = elim (Option-cases (on_reading (read_body m.body) s)) [
  | inl e ↦ rw (on_reading-with_flights (read_body m.body) fs s, e, on_messages) refl
  | inr (u, e) ↦
      rw (on_reading-with_flights (read_body m.body) fs s, e, on_messages)
        (on_messages-with_flights ms fs u)
]

on_reading-keeps :
    (r : Reading) (s u : ChatState)
    → on_reading r s ≡ some u
    → (u.flights ≡ s.flights) × (u.reader ≡ s.reader)
unfolding on_reading
on_reading-keeps ignored s u h = (
  ap (λ (x : ChatState). x.flights) (sym (some_inj h)),
  ap (λ (x : ChatState). x.reader) (sym (some_inj h)),
)
on_reading-keeps throws s u h = cc
on_reading-keeps (updater_throws b) s u h = (
  ap (λ (x : ChatState). x.flights) (sym (some_inj h)),
  ap (λ (x : ChatState). x.reader) (sym (some_inj h)),
)
on_reading-keeps (chunk_of b c) s u h = (
  ap (λ (x : ChatState). x.flights) (sym (some_inj h)),
  ap (λ (x : ChatState). x.reader) (sym (some_inj h)),
)

on_messages-keeps :
    (ms : List SseMessage) (s : ChatState)
    → ((on_messages ms s).0.flights ≡ s.flights) × ((on_messages ms s).0.reader ≡ s.reader)
unfolding on_messages
on_messages-keeps [] s = (refl, refl)
on_messages-keeps (m ∷ ms) s = elim (Option-cases (on_reading (read_body m.body) s)) [
  | inl e ↦ rw (e, on_messages) (refl, refl)
  | inr (u, e) ↦
      let (a, b) = on_reading-keeps (read_body m.body) s u e in
      let (c, d) = on_messages-keeps ms u in rw (e, on_messages) (c ∙ a, d ∙ b)
]

id_of_found : (i : ℕ) (fs : List ChatFlight) (f : ChatFlight) → find_flight i fs ≡ some f → f.id ≡ i
unfolding find_flight
id_of_found i [] f h = cc
id_of_found i (g ∷ fs) f h = ground (arith, ==_iff g.id i, id_of_found i fs f)

find_flight-put_flight :
    (i : ℕ) (g f : ChatFlight) (fs : List ChatFlight)
    → find_flight i fs ≡ some f
    → g.id ≡ i
    → find_flight i (put_flight g fs) ≡ some g
unfolding find_flight put_flight
find_flight-put_flight i g f [] h e = cc
find_flight-put_flight i g f (x ∷ fs) h e = elim (Bool-cases (x.id == i)) [
  | inl b ↦ rw (ap (λ k. x.id == k) e ∙ b) (rw (ap (λ k. k == i) e ∙ ==_refl i) refl)
  | inr b ↦ rw (ap (λ k. x.id == k) e ∙ b) (rw b (find_flight-put_flight i g f fs (rw b at h) e))
]

-- Messages of which none throws: those behind them are reached.
ended :
    (ms : List SseMessage) (o : ChatState × Bool)
    → (then_messages ms o).1 ≡ false
    → (o.1 ≡ false) × (then_messages ms o ≡ on_messages ms o.0)
ended ms (s, true) h = cc
ended ms (s, false) h = (refl, refl)

after_chunk-reads :
    (f : ChatFlight) (r : Str) (o : ChatState × Bool) (j : ℕ)
    → o.1 ≡ false
    → o.0.reader ≡ some j
    → after_chunk f r o ≡ with_flights (put_flight (record f { buffer = r }) o.0.flights) o.0
unfolding after_chunk
after_chunk-reads f r (s, true) j h k = cc
after_chunk-reads f r (s, false) j h k = go s.reader k
  where
    go :
        (x : Option ℕ)
        → x ≡ some j
        → (elim x [
          | none ↦ on_error (over f s)
          | some y ↦ record s { flights = put_flight (record f { buffer = r }) s.flights }
        ])
          ≡ with_flights (put_flight (record f { buffer = r }) s.flights) s
    go none e = cc
    go (some y) e = refl

module _ (parse : Str → Option Json) (i j : ℕ) where
  step-chunk :
      (s : ChatState) (f : ChatFlight) (t : Str)
      → find_flight i s.flights ≡ some f
      → f.reading ≡ true
      → step parse s (chunk i t) ≡ some (on_chunk parse f t s)
  unfolding step on_flight
  step-chunk s f t h r =
      ap (λ o. on_flight o (λ g. g.reading) (λ g. on_chunk parse g t s)) h
      ∙ ap (λ b. if b then some (on_chunk parse f t s) else none) r

  reads :
      (s : ChatState) (f : ChatFlight) (texts : List Str)
      → find_flight i s.flights ≡ some f
      → f.reading ≡ true
      → s.reader ≡ some j
      → AllData (feed_all f.buffer texts).0
      → (on_messages (process_lines parse (feed_all f.buffer texts).0) s).1 ≡ false
      → (u : ChatState) × (read_chunks parse i texts s ≡ some u)
        × (with_flights [] u
            ≡ with_flights [] (on_messages (process_lines parse (feed_all f.buffer texts).0) s).0)
  unfolding read_chunks feed_all on_chunk on_messages
  reads s f [] h r k a n =
      (s, refl, ap (λ ms. with_flights [] (on_messages ms s).0) (sym (process_lines-nil parse)))
  reads s f (t ∷ ts) h r k a n =
      let ls = (feed f.buffer t).0 in
      let g : ChatFlight = record f { buffer = (feed f.buffer t).1 } in
      let more = (feed_all g.buffer ts).0 in
      let out = on_messages (process_lines parse ls) s in
      let (a1, a2) = AllData-append ls more a in
      let whole =
        ap (λ x. on_messages x s) (process_lines-append parse ls more a1 a2)
        ∙ on_messages-append (process_lines parse ls) (process_lines parse more) s in
      let (fine, rest) =
        ended (process_lines parse more) out (ap (λ (o : ChatState × Bool). o.1) (sym whole) ∙ n) in
      let (kf, kr) = on_messages-keeps (process_lines parse ls) s in
      let fs = put_flight g out.0.flights in
      let moved = on_messages-with_flights (process_lines parse more) fs out.0 in
      let (u, ran, same) =
        reads (with_flights fs out.0) g ts
          (find_flight-put_flight i g f out.0.flights (ap (find_flight i) kf ∙ h)
            (id_of_found i s.flights f h))
          r (kr ∙ k) a2
          (ap (λ (o : ChatState × Bool). o.1) (moved ∙ ap (both fs) (sym rest ∙ sym whole)) ∙ n) in
      (
        u,
        ap (λ o. elim o [ none ↦ none | some v ↦ read_chunks parse i ts v ])
              (step-chunk s f t h r ∙ ap some (after_chunk-reads f g.buffer out j fine (kr ∙ k)))
            ∙ ran,
        same
            ∙ ap (λ (o : ChatState × Bool). with_flights [] o.0)
                (moved ∙ ap (both fs) (sym rest ∙ sym whole)),
      )

  -- A request that reads with an empty buffer, and a stream whose lines carry data or are skipped: whatever
  -- the cut into chunks, reading them one by one leaves the chat, but for the requests in flight, as the
  -- messages of all lines together would. None of these messages throws.
  pub read_chunks-whole :
      (s : ChatState) (f : ChatFlight) (texts : List Str)
      → find_flight i s.flights ≡ some f
      → f.reading ≡ true
      → f.buffer ≡ []
      → s.reader ≡ some j
      → AllData (feed [] (concat texts)).0
      → (on_messages (process_lines parse (feed [] (concat texts)).0) s).1 ≡ false
      → (u : ChatState) × (read_chunks parse i texts s ≡ some u)
        × (with_flights [] u
            ≡ with_flights [] (on_messages (process_lines parse (feed [] (concat texts)).0) s).0)
  read_chunks-whole s f texts h r b k a n =
      let whole : (feed_all f.buffer texts).0 ≡ (feed [] (concat texts)).0 =
        ap (λ x. (feed_all x texts).0) b
        ∙ ap (λ (p : List Str × Str). p.0) (feed_all-eq-feed texts) in
      subst
        (λ ls.
          (u : ChatState) × (read_chunks parse i texts s ≡ some u)
          × (with_flights [] u ≡ with_flights [] (on_messages (process_lines parse ls) s).0))
        whole
        (reads s f texts h r k (subst AllData (sym whole) a)
          (subst (λ ls. (on_messages (process_lines parse ls) s).1 ≡ false) (sym whole) n))
