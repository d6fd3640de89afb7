-- ===== src/Chat/Busy.antt =====
-- The status of the chat and its requests in flight, in src/frontend/src/services/chat.tsx.
use swarm_engine.Prelude.{
  ℕ, ◌≡◌, refl, sym, ap, subst, ◌∙◌, ◌≢◌, inl, inr, Bool, true, false, not, ◌||◌, Option, none,
  some, List, [], ◌∷◌, ◌++◌, arith, if◌then◌else◌, Bool-cases, Option-cases, some_inj, find_index,
}
use swarm_engine.Text.{Str, str_eq, truthy, trim}
use swarm_engine.LineBuffer.{feed}
use swarm_engine.Json.{Json}
use swarm_engine.Sse.{SseMessage, process_lines}
use swarm_engine.Chat.{ChatMessage, ClusterView}
use swarm_engine.Chat.Provider.{
  ChatFlight, ChatState, new_chat, on_close, on_error, is_busy, submit, kept_messages, regenerate,
  user_message, generate_new, generate, stop, clear,
}
use swarm_engine.Chat.Connection.Flights.{on_flight-elim}
use swarm_engine.Chat.Connection.{
  Reading, on_reading, on_messages, find_flight, put_flight, over, ChatResponse, is_stream,
  on_response, after_chunk, on_chunk, Rejection, abort_error, other, on_reject, ChatEvent,
  set_input, generate_of, stop_now, clear_now, response, chunk, done, reject, step, Reaches, here,
  next, ignored, throws, updater_throws, chunk_of, read_body,
}

-- Not the empty list of requests.
abbrev IsFlying : ChatState → Type 0
IsFlying s = is_busy s.status ≡ true → s.flights ≢ []

put_flight-ne : (g : ChatFlight) (fs : List ChatFlight) → fs ≢ [] → put_flight g fs ≢ []
unfolding put_flight
put_flight-ne g [] h = h
put_flight-ne g (f ∷ fs) h = ground arith

found-ne : (i : ℕ) (fs : List ChatFlight) (f : ChatFlight) → find_flight i fs ≡ some f → fs ≢ []
unfolding find_flight
found-ne i [] f h = cc
found-ne i (g ∷ fs) f h = cc

on_reading-flights :
    (r : Reading) (s u : ChatState) → on_reading r s ≡ some u → u.flights ≡ s.flights
unfolding on_reading
on_reading-flights ignored s u h = ap (λ (x : ChatState). x.flights) (sym (some_inj h))
on_reading-flights throws s u h = cc
on_reading-flights (updater_throws b) s u h = ap (λ (x : ChatState). x.flights) (sym (some_inj h))
on_reading-flights (chunk_of b c) s u h = ap (λ (x : ChatState). x.flights) (sym (some_inj h))

flights-on_messages :
    (ms : List SseMessage) (s : ChatState) → (on_messages ms s).0.flights ≡ s.flights
unfolding on_messages
flights-on_messages [] s = refl
flights-on_messages (m ∷ ms) s = elim (Option-cases (on_reading (read_body m.body) s)) [
  | inl e ↦ rw (e, on_messages) refl
  | inr (u, e) ↦
      rw (e, on_messages) (flights-on_messages ms u ∙ on_reading-flights (read_body m.body) s u e)
]

not_busy : (s : ChatState) → is_busy s.status ≡ false → IsFlying s
not_busy s h b = absurd (cc (h, b))

on_error-IsFlying : (s : ChatState) → IsFlying (on_error s)
unfolding on_error
on_error-IsFlying s = not_busy (on_error s) refl

on_close-IsFlying : (s : ChatState) → IsFlying (on_close s)
unfolding on_close
on_close-IsFlying s = not_busy (on_close s) refl

after_chunk-IsFlying :
    (f : ChatFlight) (rest : Str) (s : ChatState) (b : Bool)
    → s.flights ≢ []
    → IsFlying (after_chunk f rest (s, b))
unfolding after_chunk
after_chunk-IsFlying f rest s true h = on_error-IsFlying (over f s)
after_chunk-IsFlying f rest s false h = go s.reader
  where
    go :
        (o : Option ℕ)
        → IsFlying (elim o [
          | none ↦ on_error (over f s)
          | some j ↦ record s { flights = put_flight (record f { buffer = rest }) s.flights }
        ])
    go none = on_error-IsFlying (over f s)
    go (some j) = λ _. put_flight-ne (record f { buffer = rest }) s.flights h

chunk-IsFlying :
    (parse : Str → Option Json) (f : ChatFlight) (t : Str) (s : ChatState)
    → s.flights ≢ []
    → IsFlying (on_chunk parse f t s)
unfolding on_chunk
chunk-IsFlying parse f t s h =
    let out = on_messages (process_lines parse (feed f.buffer t).0) s in
    after_chunk-IsFlying f (feed f.buffer t).1 out.0 out.1
      (rw (flights-on_messages (process_lines parse (feed f.buffer t).0) s) h)

response-IsFlying :
    (f : ChatFlight) (r : ChatResponse) (s : ChatState)
    → s.flights ≢ []
    → IsFlying (on_response f r s)
unfolding on_response
response-IsFlying f r s h = go (is_stream r) r.has_body
  where
    go :
        (a b : Bool)
        → IsFlying (
            if not a
            then on_error (over f s)
            else if b
            then record s {
              reader = some f.id;
              flights = put_flight (record f { reading = true }) s.flights;
            }
            else on_error (over f (record s { reader = none })))
    go false b = on_error-IsFlying (over f s)
    go true true = λ _. put_flight-ne (record f { reading = true }) s.flights h
    go true false = on_error-IsFlying (over f (record s { reader = none }))

reject-IsFlying : (f : ChatFlight) (r : Rejection) (s : ChatState) → IsFlying (on_reject f r s)
unfolding on_reject
reject-IsFlying f abort_error s = on_close-IsFlying (over f s)
reject-IsFlying f other s = on_error-IsFlying (over f s)

stop-IsFlying : (s : ChatState) → IsFlying s → IsFlying (stop s)
unfolding stop
stop-IsFlying s h = elim (Bool-cases (is_busy s.status)) [
  | inl e ↦ rw e (on_close-IsFlying (record s { reader = none; abort_controller = none }))
  | inr e ↦ rw e (not_busy s e)
]

clear-IsFlying : (s : ChatState) → IsFlying (clear s)
unfolding clear
clear-IsFlying s = elim (Bool-cases (is_busy s.status)) [
  | inl e ↦ rw e (on_close-IsFlying (record s { reader = none; abort_controller = none }))
  | inr e ↦ subst IsFlying (sym (idle e)) (not_busy (record s { messages = [] }) e)
]
  where
    idle : is_busy s.status ≡ false → clear s ≡ record s { messages = [] }
    idle e = rw e refl

submit-IsFlying : (m : Str) (ms : List ChatMessage) (s : ChatState) → IsFlying (submit m ms s)
unfolding submit
submit-IsFlying m ms s = λ _. cc

generate-IsFlying :
    (v : ClusterView) (m : Option ChatMessage) (t : Str) (n : ℕ) (s : ChatState)
    → IsFlying s
    → IsFlying (generate v m t n s)
unfolding generate generate_new regenerate
generate-IsFlying v m t n s h =
    go (not v.available || is_busy s.status) (not (truthy v.model_name)) m
  where
    new :
        (b : Bool)
        → IsFlying (
            if b
            then submit v.model_name
                (s.messages ++ user_message t n (trim s.input) ∷ [])
                (record s { input = [] })
            else s)
    new true =
        submit-IsFlying v.model_name (s.messages ++ user_message t n (trim s.input) ∷ [])
          (record s { input = [] })
    new false = h

    old :
        (o : Option (List ChatMessage))
        → IsFlying (elim o [ none ↦ s | some ms ↦ submit v.model_name ms s ])
    old none = h
    old (some ms) = submit-IsFlying v.model_name ms s

    go :
        (a b : Bool) (m : Option ChatMessage)
        → IsFlying (
            if a then s else if b then s else elim m [
              | none ↦ generate_new v.model_name t n s
              | some x ↦ regenerate v.model_name x s
            ])
    go true b m = h
    go false true m = h
    go false false none = new (truthy (trim s.input))
    go false false (some x) =
        old (kept_messages s.messages (find_index (λ y. str_eq y.id x.id) s.messages))

step-IsFlying :
    (parse : Str → Option Json) (s : ChatState) (e : ChatEvent) (u : ChatState)
    → step parse s e ≡ some u
    → IsFlying s
    → IsFlying u
unfolding step
step-IsFlying parse s (set_input t) u e h = subst IsFlying (some_inj e) h
step-IsFlying parse s (generate_of v m t n) u e h =
    subst IsFlying (some_inj e) (generate-IsFlying v m t n s h)
step-IsFlying parse s stop_now u e h = subst IsFlying (some_inj e) (stop-IsFlying s h)
step-IsFlying parse s clear_now u e h = subst IsFlying (some_inj e) (clear-IsFlying s)
step-IsFlying parse s (response i r) u e h =
    on_flight-elim IsFlying (find_flight i s.flights) (λ f. not f.reading) (λ f. on_response f r s)
      u e (λ f k. response-IsFlying f r s (found-ne i s.flights f k))
step-IsFlying parse s (chunk i t) u e h =
    on_flight-elim IsFlying (find_flight i s.flights) (λ f. f.reading) (λ f. on_chunk parse f t s) u
      e (λ f k. chunk-IsFlying parse f t s (found-ne i s.flights f k))
step-IsFlying parse s (done i) u e h =
    on_flight-elim IsFlying (find_flight i s.flights) (λ f. f.reading) (λ f. on_close (over f s)) u
      e (λ f k. on_close-IsFlying (over f s))
step-IsFlying parse s (reject i r) u e h =
    on_flight-elim IsFlying (find_flight i s.flights) (λ f. true) (λ f. on_reject f r s) u e
      (λ f k. reject-IsFlying f r s)

-- In every state that events lead to from a new chat, a chat that is busy, opened or generating, has
-- a request in flight: no sequence of calls, responses, chunks and failures leaves it waiting for
-- nothing.
pub busy_in_flight :
    (parse : Str → Option Json) {s : ChatState}
    → Reaches parse new_chat s
    → is_busy s.status ≡ true
    → s.flights ≢ []
busy_in_flight parse here = not_busy new_chat refl
busy_in_flight parse (next {t} {u} r e k) = step-IsFlying parse t e u k (busy_in_flight parse r)
