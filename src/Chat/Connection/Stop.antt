-- ===== src/Chat/Connection/Stop.antt =====
-- What becomes of a chat that was stopped: `stop` and the callbacks that are still to come, in
-- src/frontend/src/services/chat.tsx.
use swarm_engine.Prelude.{
  ◌≡◌, refl, sym, ap, subst, ◌∙◌, inl, inr, Bool, true, false, Option, none, some, List, [], ◌∷◌,
  Bool-cases, Option-cases, some_inj, all,
}
use swarm_engine.Text.{Str}
use swarm_engine.LineBuffer.{feed}
use swarm_engine.Json.{Json}
use swarm_engine.Sse.{SseMessage, process_lines}
use swarm_engine.Chat.{ChatMessage, ChatStatus, closed, error, finish_last}
use swarm_engine.Chat.Provider.{
  ChatFlight, ChatState, set_messages, on_close, on_error, is_busy, stop, clear,
}
use swarm_engine.Chat.Requests.{Keeps, step-Sends, stop-Keeps}
use swarm_engine.Chat.Connection.Flights.{on_flight-elim}
use swarm_engine.Chat.Connection.{
  Reading, on_reading, on_messages, find_flight, over, after_chunk, on_chunk, abort_error, other,
  on_reject, ChatEvent, set_input, generate_of, stop_now, clear_now, response, chunk, done, reject,
  step, ignored, throws, updater_throws, chunk_of, read_body,
}

-- Events in turn; `none` if one cannot happen.
unfoldable pub chat_run : (Str → Option Json) → ChatState → List ChatEvent → Option ChatState
unfolding step
chat_run parse s [] = some s
chat_run parse s (e ∷ es) = elim (step parse s e) [ none ↦ none | some t ↦ chat_run parse t es ]

-- What may still happen to a chat that was stopped: all but a new request and a response.
abbrev is_late : ChatEvent → Bool
is_late (generate_of v m t n) = false
is_late (response i r) = false
is_late _ = true

-- The status that an event tells a chat that was stopped: the end of a request and an AbortError close
-- it, and a chunk, since its reader is gone, and any other rejection are errors.
abbrev told_by : ChatStatus → ChatEvent → ChatStatus
told_by c (chunk i t) = error
told_by c (done i) = closed
told_by c (reject i abort_error) = closed
told_by c (reject i other) = error
told_by c _ = c

abbrev told : ChatStatus → List ChatEvent → ChatStatus
told c [] = c
told c (e ∷ es) = told (told_by c e) es

-- The chat has no reader and is not busy, with a status.
pub record IsStopped (c : ChatStatus) (s : ChatState) : Type 0 where
  pub idle : is_busy c ≡ false
  pub status : s.status ≡ c
  pub no_reader : s.reader ≡ none

reader-set_messages :
    (o : Option (List ChatMessage)) (s : ChatState) → (set_messages o s).reader ≡ s.reader
reader-set_messages none s = refl
reader-set_messages (some ms) s = refl

on_close-IsStopped : (s : ChatState) → s.reader ≡ none → IsStopped closed (on_close s)
unfolding on_close
on_close-IsStopped s h = record {
  idle = refl;
  status = refl;
  no_reader = reader-set_messages (finish_last s.messages) s ∙ h;
}

on_error-IsStopped : (s : ChatState) → s.reader ≡ none → IsStopped error (on_error s)
unfolding on_error
on_error-IsStopped s h = record {
  idle = refl;
  status = refl;
  no_reader = reader-set_messages (finish_last s.messages) s ∙ h;
}

reader-on_reading : (r : Reading) (s u : ChatState) → on_reading r s ≡ some u → u.reader ≡ s.reader
unfolding on_reading
reader-on_reading ignored s u h = ap (λ (x : ChatState). x.reader) (sym (some_inj h))
reader-on_reading throws s u h = cc
reader-on_reading (updater_throws b) s u h = ap (λ (x : ChatState). x.reader) (sym (some_inj h))
reader-on_reading (chunk_of b c) s u h = ap (λ (x : ChatState). x.reader) (sym (some_inj h))

reader-on_messages : (ms : List SseMessage) (s : ChatState) → (on_messages ms s).0.reader ≡ s.reader
unfolding on_messages
reader-on_messages [] s = refl
reader-on_messages (m ∷ ms) s = elim (Option-cases (on_reading (read_body m.body) s)) [
  | inl e ↦ rw (e, on_messages) refl
  | inr (u, e) ↦
      rw (e, on_messages) (reader-on_messages ms u ∙ reader-on_reading (read_body m.body) s u e)
]

after_chunk-IsStopped :
    (f : ChatFlight) (rest : Str) (s : ChatState) (b : Bool)
    → s.reader ≡ none
    → IsStopped error (after_chunk f rest (s, b))
unfolding after_chunk
after_chunk-IsStopped f rest s true h = on_error-IsStopped (over f s) h
after_chunk-IsStopped f rest s false h = rw h (on_error-IsStopped (over f s) h)

on_chunk-IsStopped :
    (parse : Str → Option Json) (f : ChatFlight) (t : Str) (s : ChatState)
    → s.reader ≡ none
    → IsStopped error (on_chunk parse f t s)
unfolding on_chunk
on_chunk-IsStopped parse f t s h =
    let lines = process_lines parse (feed f.buffer t).0 in
    let out = on_messages lines s in
    after_chunk-IsStopped f (feed f.buffer t).1 out.0 out.1 (reader-on_messages lines s ∙ h)

stop-idle : (s : ChatState) → is_busy s.status ≡ false → stop s ≡ s
unfolding stop
stop-idle s h = rw h refl

clear-idle : (s : ChatState) → is_busy s.status ≡ false → clear s ≡ record s { messages = [] }
unfolding clear stop
clear-idle s h = rw h refl

not_busy : (c : ChatStatus) (s : ChatState) → IsStopped c s → is_busy s.status ≡ false
not_busy c s h = ap is_busy h.status ∙ h.idle

step-IsStopped :
    (parse : Str → Option Json) (c : ChatStatus) (s : ChatState) (e : ChatEvent) (u : ChatState)
    → step parse s e ≡ some u
    → is_late e ≡ true
    → IsStopped c s
    → IsStopped (told_by c e) u
unfolding step on_reject
step-IsStopped parse c s (set_input t) u e l h =
    subst (IsStopped c) (some_inj e)
      (record { idle = h.idle; status = h.status; no_reader = h.no_reader })
step-IsStopped parse c s (generate_of v m t n) u e l h = absurd (cc l)
step-IsStopped parse c s stop_now u e l h =
    subst (IsStopped c) (sym (stop-idle s (not_busy c s h)) ∙ some_inj e) h
step-IsStopped parse c s clear_now u e l h =
    subst (IsStopped c) (sym (clear-idle s (not_busy c s h)) ∙ some_inj e)
      (record { idle = h.idle; status = h.status; no_reader = h.no_reader })
step-IsStopped parse c s (response i r) u e l h = absurd (cc l)
step-IsStopped parse c s (chunk i t) u e l h =
    on_flight-elim (IsStopped error) (find_flight i s.flights) (λ f. f.reading)
      (λ f. on_chunk parse f t s) u e λ f _. on_chunk-IsStopped parse f t s h.no_reader
step-IsStopped parse c s (done i) u e l h =
    on_flight-elim (IsStopped closed) (find_flight i s.flights) (λ f. f.reading)
      (λ f. on_close (over f s)) u e λ f _. on_close-IsStopped (over f s) h.no_reader
step-IsStopped parse c s (reject i abort_error) u e l h =
    on_flight-elim (IsStopped closed) (find_flight i s.flights) (λ f. true)
      (λ f. on_reject f abort_error s) u e λ f _. on_close-IsStopped (over f s) h.no_reader
step-IsStopped parse c s (reject i other) u e l h =
    on_flight-elim (IsStopped error) (find_flight i s.flights) (λ f. true)
      (λ f. on_reject f other s) u e λ f _. on_error-IsStopped (over f s) h.no_reader

late-Keeps :
    (parse : Str → Option Json) (s : ChatState) (e : ChatEvent) (u : ChatState)
    → step parse s e ≡ some u
    → is_late e ≡ true
    → Keeps s u
late-Keeps parse s (generate_of v m t n) u e l = absurd (cc l)
late-Keeps parse s (response i r) u e l = absurd (cc l)
late-Keeps parse s (set_input t) u e l = step-Sends parse s (set_input t) u e
late-Keeps parse s stop_now u e l = step-Sends parse s stop_now u e
late-Keeps parse s clear_now u e l = step-Sends parse s clear_now u e
late-Keeps parse s (chunk i t) u e l = step-Sends parse s (chunk i t) u e
late-Keeps parse s (done i) u e l = step-Sends parse s (done i) u e
late-Keeps parse s (reject i r) u e l = step-Sends parse s (reject i r) u e

run-IsStopped :
    (parse : Str → Option Json) (c : ChatStatus) (s : ChatState) (es : List ChatEvent)
    (u : ChatState)
    → chat_run parse s es ≡ some u
    → all is_late es ≡ true
    → IsStopped c s
    → IsStopped (told c es) u × Keeps s u
unfolding chat_run
run-IsStopped parse c s [] u r l h = subst (λ x. IsStopped c x × Keeps s x) (some_inj r) (h, refl)
run-IsStopped parse c s (e ∷ es) u r l h = elim (Option-cases (step parse s e)) [
  | inl k ↦ absurd (cc (rw (k, chat_run) at r))
  | inr (t, k) ↦ elim (Bool-cases (is_late e)) [
    | inr n ↦ absurd (cc (rw n at l))
    | inl n ↦
        let (a, b) =
          run-IsStopped parse (told_by c e) t es u (rw (k, chat_run) at r) (rw n at l)
            (step-IsStopped parse c s e t k n h) in
        (a, b ∙ late-Keeps parse s e t k n)
  ]
]

let_go : (s : ChatState) → is_busy s.status ≡ true → IsStopped closed (stop s)
unfolding stop
let_go s h = rw h (on_close-IsStopped (record s { reader = none; abort_controller = none }) refl)

-- A busy chat that is stopped stays so, through any events but a new request and a response: it has no
-- reader, is not busy and sends nothing. Its status is what the last callback told: closed by the stop,
-- by the end of a request and by an AbortError, and an error by a chunk and by a rejection for another
-- reason, such as the string that `stop` itself gives to the abort.
pub stop_stays :
    (parse : Str → Option Json) (s : ChatState) (es : List ChatEvent) (u : ChatState)
    → is_busy s.status ≡ true
    → chat_run parse (stop s) es ≡ some u
    → all is_late es ≡ true
    → (u.status ≡ told closed es)
      × (is_busy u.status ≡ false)
      × (u.reader ≡ none)
      × (u.requests ≡ s.requests)
stop_stays parse s es u b r l =
    let (a, k) = run-IsStopped parse closed (stop s) es u r l (let_go s b) in
    (a.status, not_busy (told closed es) u a, a.no_reader, k ∙ stop-Keeps s)
