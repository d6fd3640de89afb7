-- ===== src/Chat/Requests.antt =====
-- The requests of the chat of src/frontend/src/services/chat.tsx: which of its events send one.
use swarm_engine.Prelude.{
  ◌≡◌, refl, sym, ap, subst, ◌∙◌, ◌⊎◌, inl, inr, Bool, true, false, not, Option, none, some, List,
  [], ◌∷◌, if◌then◌else◌, Bool-cases, Option-cases, some_inj,
}
use swarm_engine.Text.{Str}
use swarm_engine.LineBuffer.{feed}
use swarm_engine.Json.{Json}
use swarm_engine.Sse.{SseMessage, process_lines}
use swarm_engine.Chat.{ChatMessage, finish_last}
use swarm_engine.Chat.Provider.{
  ChatFlight, ChatState, set_messages, on_close, on_error, is_busy, stop, clear,
}
use swarm_engine.Chat.Actions.{IsSent, generate_sends}
use swarm_engine.Chat.Connection.Flights.{on_flight-elim}
use swarm_engine.Chat.Connection.{
  Reading, on_reading, on_messages, find_flight, put_flight, over, ChatResponse, is_stream,
  on_response, after_chunk, on_chunk, Rejection, abort_error, other, on_reject, ChatEvent,
  set_input, generate_of, stop_now, clear_now, response, chunk, done, reject, step, ignored, throws,
  updater_throws, chunk_of, read_body,
}

-- No request was sent between two states.
abbrev pub Keeps : ChatState → ChatState → Type 0
Keeps s u = u.requests ≡ s.requests

set_messages-Keeps : (o : Option (List ChatMessage)) (s : ChatState) → Keeps s (set_messages o s)
set_messages-Keeps none s = refl
set_messages-Keeps (some ms) s = refl

on_close-Keeps : (s : ChatState) → Keeps s (on_close s)
unfolding on_close
on_close-Keeps s = set_messages-Keeps (finish_last s.messages) s

on_error-Keeps : (s : ChatState) → Keeps s (on_error s)
unfolding on_error
on_error-Keeps s = set_messages-Keeps (finish_last s.messages) s

pub stop-Keeps : (s : ChatState) → Keeps s (stop s)
unfolding stop
stop-Keeps s = elim (Bool-cases (is_busy s.status)) [
  | inl e ↦ rw e (on_close-Keeps (record s { reader = none; abort_controller = none }))
  | inr e ↦ rw e refl
]

clear-Keeps : (s : ChatState) → Keeps s (clear s)
unfolding clear
clear-Keeps s = elim (Bool-cases (is_busy s.status)) [
  | inl e ↦ ap (λ (x : ChatState). x.requests) (busy e) ∙ stop-Keeps s
  | inr e ↦ ap (λ (x : ChatState). x.requests) (idle e) ∙ stop-Keeps s
]
  where
    busy : is_busy s.status ≡ true → clear s ≡ stop s
    busy e = rw e refl

    idle : is_busy s.status ≡ false → clear s ≡ record (stop s) { messages = [] }
    idle e = rw e refl

on_reading-Keeps : (r : Reading) (s u : ChatState) → on_reading r s ≡ some u → Keeps s u
unfolding on_reading
on_reading-Keeps ignored s u h = ap (λ (x : ChatState). x.requests) (sym (some_inj h))
on_reading-Keeps throws s u h = cc
on_reading-Keeps (updater_throws b) s u h = ap (λ (x : ChatState). x.requests) (sym (some_inj h))
on_reading-Keeps (chunk_of b c) s u h = ap (λ (x : ChatState). x.requests) (sym (some_inj h))

on_messages-Keeps : (ms : List SseMessage) (s : ChatState) → Keeps s (on_messages ms s).0
unfolding on_messages
on_messages-Keeps [] s = refl
on_messages-Keeps (m ∷ ms) s = elim (Option-cases (on_reading (read_body m.body) s)) [
  | inl e ↦ rw (e, on_messages) refl
  | inr (u, e) ↦
      rw (e, on_messages) (on_messages-Keeps ms u ∙ on_reading-Keeps (read_body m.body) s u e)
]

after_chunk-Keeps :
    (f : ChatFlight) (rest : Str) (s : ChatState) (b : Bool) → Keeps s (after_chunk f rest (s, b))
unfolding after_chunk
after_chunk-Keeps f rest s true = on_error-Keeps (over f s)
after_chunk-Keeps f rest s false = elim (Option-cases s.reader) [
  | inl e ↦ rw (e, after_chunk) (on_error-Keeps (over f s))
  | inr (j, e) ↦ rw (e, after_chunk) refl
]

on_chunk-Keeps :
    (parse : Str → Option Json) (f : ChatFlight) (t : Str) (s : ChatState)
    → Keeps s (on_chunk parse f t s)
unfolding on_chunk
on_chunk-Keeps parse f t s =
    let out = on_messages (process_lines parse (feed f.buffer t).0) s in
    after_chunk-Keeps f (feed f.buffer t).1 out.0 out.1
    ∙ on_messages-Keeps (process_lines parse (feed f.buffer t).0) s

on_response-Keeps :
    (f : ChatFlight) (r : ChatResponse) (s : ChatState) → Keeps s (on_response f r s)
unfolding on_response
on_response-Keeps f r s = go (is_stream r) r.has_body
  where
    go :
        (a b : Bool)
        → Keeps s (
            if not a
            then on_error (over f s)
            else if b
            then record s {
              reader = some f.id;
              flights = put_flight (record f { reading = true }) s.flights;
            }
            else on_error (over f (record s { reader = none })))
    go false b = on_error-Keeps (over f s)
    go true true = refl
    go true false = on_error-Keeps (over f (record s { reader = none }))

on_reject-Keeps : (f : ChatFlight) (r : Rejection) (s : ChatState) → Keeps s (on_reject f r s)
unfolding on_reject
on_reject-Keeps f abort_error s = on_close-Keeps (over f s)
on_reject-Keeps f other s = on_error-Keeps (over f s)

-- What an event makes of the requests: one call of `generate` may send one, and nothing else does.
abbrev pub Sends : ChatState → ChatEvent → ChatState → Type 0
Sends s (generate_of v m t n) u = Keeps s u ⊎ IsSent v m t n s u
Sends s _ u = Keeps s u

pub step-Sends :
    (parse : Str → Option Json) (s : ChatState) (e : ChatEvent) (u : ChatState)
    → step parse s e ≡ some u
    → Sends s e u
unfolding step
step-Sends parse s (set_input t) u e = subst (Keeps s) (some_inj e) refl
step-Sends parse s (generate_of v m t n) u e =
    subst (λ x. Keeps s x ⊎ IsSent v m t n s x) (some_inj e)
      (elim (generate_sends v m t n s) [
        | inl k ↦ inl (ap (λ (x : ChatState). x.requests) k)
        | inr k ↦ inr k
      ])
step-Sends parse s stop_now u e = subst (Keeps s) (some_inj e) (stop-Keeps s)
step-Sends parse s clear_now u e = subst (Keeps s) (some_inj e) (clear-Keeps s)
step-Sends parse s (response i r) u e =
    on_flight-elim (Keeps s) (find_flight i s.flights) (λ f. not f.reading) (λ f. on_response f r s)
      u e λ f _. on_response-Keeps f r s
step-Sends parse s (chunk i t) u e =
    on_flight-elim (Keeps s) (find_flight i s.flights) (λ f. f.reading) (λ f. on_chunk parse f t s)
      u e λ f _. on_chunk-Keeps parse f t s
step-Sends parse s (done i) u e =
    on_flight-elim (Keeps s) (find_flight i s.flights) (λ f. f.reading) (λ f. on_close (over f s)) u
      e λ f _. on_close-Keeps (over f s)
step-Sends parse s (reject i r) u e =
    on_flight-elim (Keeps s) (find_flight i s.flights) (λ f. true) (λ f. on_reject f r s) u e
      λ f _. on_reject-Keeps f r s
