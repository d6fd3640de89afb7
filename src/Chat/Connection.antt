-- ===== src/Chat/Connection.antt =====
-- The messages and the events of `createSSE` in src/frontend/src/services/chat.tsx. An event is a call of
-- an action or a callback of the browser; React renders between two events.
pub mod Stop
pub mod Reads
pub mod Flights
use swarm_engine.Prelude.{
  ℕ, ◌≡◌, Bool, true, false, not, ◌&&◌, Option, none, some, List, [], ◌∷◌, map, ltb, ◌==◌,
  if◌then◌else◌, any,
}
use swarm_engine.Text.{Str, codes, truthy, includes}
use swarm_engine.LineBuffer.{feed}
use swarm_engine.Json.{
  Json, bool, num, str, arr, obj, get, text?, is_text, elements, is_nullish, text_or_empty,
  number_or_zero,
}
use swarm_engine.Chat.Provider.{ChatFlight, ChatState, clear, generate, on_close, on_error, stop}
use swarm_engine.Sse.{SseMessage, process_lines}
use swarm_engine.Chat.{ChatMessage, generating, ClusterView, Delta, Completion, receive}

-- What `onMessage` makes of a value: nothing, an exception, or a chunk of a completion with the
-- question whether its first choice has content; with a later choice that is no object, its updater
-- throws.
pub data Reading : Type 0 where
  ignored throws : Reading
  updater_throws : Bool → Reading
  chunk_of : Bool → Completion → Reading

abbrev truthy_json : Json → Bool
truthy_json (bool b) = b
truthy_json (num n) = ltb 0 n
truthy_json (str s) = truthy s
truthy_json (arr xs) = true
truthy_json (obj fs) = true
truthy_json _ = false

-- `({ delta: { role, content } = {} })`; a role that is no text counts as absent.
unfoldable delta_of : Json → Delta
unfolding get text?
delta_of choice = record {
  role = text? (get (codes "role") (get (codes "delta") choice));
  content = text? (get (codes "content") (get (codes "delta") choice));
}

abbrev model_of : Json → Option Str
model_of (str s) = some s
model_of _ = none

-- The first choice is read before the updater runs: it must have a delta.
unfoldable read_choices : Json → List Json → Reading
unfolding delta_of get
read_choices body [] = ignored
read_choices body (c ∷ cs) =
    if is_nullish (get (codes "delta") c)
    then throws
    else if any is_nullish cs
    then updater_throws (truthy_json (get (codes "content") (get (codes "delta") c)))
    else chunk_of (truthy_json (get (codes "content") (get (codes "delta") c))) (record {
      id = text_or_empty (get (codes "id") body);
      created = number_or_zero (get (codes "created") body);
      model = model_of (get (codes "model") body);
      deltas = map delta_of (c ∷ cs);
    })

unfoldable pub read_body : Json → Reading
unfolding read_choices is_text elements
read_body body =
    if is_nullish body
    then throws
    else if is_text (get (codes "object") body) (codes "chat.completion.chunk")
    then read_choices body (elements (get (codes "choices") body))
    else ignored

-- `onMessage`; `none` is an exception.
unfoldable pub on_reading : Reading → ChatState → Option ChatState
unfolding receive
on_reading ignored s = some s
on_reading throws s = none
on_reading (updater_throws starts) s =
    some (record s { status = if starts then generating else s.status; crashed = true })
on_reading (chunk_of starts c) s =
    some (record s {
      status = if starts then generating else s.status;
      messages = receive c s.messages;
    })

-- The messages of a chunk in turn, and whether one of them threw; those behind it are lost.
unfoldable pub on_messages : List SseMessage → ChatState → ChatState × Bool
unfolding on_reading read_body
on_messages [] s = (s, false)
on_messages (m ∷ ms) s = elim (on_reading (read_body m.body) s) [
  | none ↦ (s, true)
  | some s' ↦ on_messages ms s'
]

unfoldable pub find_flight : ℕ → List ChatFlight → Option ChatFlight
find_flight i [] = none
find_flight i (f ∷ fs) = if f.id == i then some f else find_flight i fs

unfoldable pub put_flight : ChatFlight → List ChatFlight → List ChatFlight
put_flight g [] = []
put_flight g (f ∷ fs) = if f.id == g.id then g ∷ fs else f ∷ put_flight g fs

unfoldable pub drop_flight : ℕ → List ChatFlight → List ChatFlight
drop_flight i [] = []
drop_flight i (f ∷ fs) = if f.id == i then fs else f ∷ drop_flight i fs

abbrev pub over : ChatFlight → ChatState → ChatState
over f s = record s { flights = drop_flight f.id s.flights }

-- `response`, as far as the code reads it.
pub record ChatResponse : Type 0 where
  pub status : ℕ
  pub content_type : Option Str
  pub has_body : Bool

-- The status code and the content type of an event stream.
unfoldable pub is_stream : ChatResponse → Bool
unfolding includes
is_stream r =
    r.status == 200
    && elim r.content_type [ none ↦ false | some t ↦ includes (codes "text/event-stream") t ]

-- The `then` callback up to the first read. Each refusal ends the request by `onError`.
unfoldable pub on_response : ChatFlight → ChatResponse → ChatState → ChatState
unfolding is_stream on_error put_flight drop_flight
on_response f r s =
    if not (is_stream r)
    then on_error (over f s)
    else if r.has_body
    then record s {
      reader = some f.id;
      flights = put_flight (record f { reading = true }) s.flights;
    }
    else on_error (over f (record s { reader = none }))

-- The rest of a round of the read loop: it throws if a message did, and if the reader is gone.
unfoldable pub after_chunk : ChatFlight → Str → ChatState × Bool → ChatState
unfolding on_error put_flight drop_flight
after_chunk f rest (s, true) = on_error (over f s)
after_chunk f rest (s, false) = elim s.reader [
  | none ↦ on_error (over f s)
  | some j ↦ record s { flights = put_flight (record f { buffer = rest }) s.flights }
]

unfoldable pub on_chunk : (Str → Option Json) → ChatFlight → Str → ChatState → ChatState
unfolding feed process_lines on_messages after_chunk
on_chunk parse f text s =
    let (lines, rest) = feed f.buffer text in
    after_chunk f rest (on_messages (process_lines parse lines) s)

-- Why `fetch` or a read is rejected: an `AbortError`, or anything else.
pub data Rejection : Type 0 where
  abort_error other : Rejection

unfoldable pub on_reject : ChatFlight → Rejection → ChatState → ChatState
unfolding on_close on_error drop_flight
on_reject f abort_error s = on_close (over f s)
on_reject f other s = on_error (over f s)

-- What happens to the chat: calls of its actions, and callbacks of the browser.
pub data ChatEvent : Type 0 where
  set_input : Str → ChatEvent
  generate_of : ClusterView → Option ChatMessage → Str → ℕ → ChatEvent
  stop_now clear_now : ChatEvent
  response : ℕ → ChatResponse → ChatEvent
  chunk : ℕ → Str → ChatEvent
  done : ℕ → ChatEvent
  reject : ℕ → Rejection → ChatEvent

-- A callback of a request runs only while the request waits for it.
unfoldable on_flight :
    Option ChatFlight → (ChatFlight → Bool) → (ChatFlight → ChatState) → Option ChatState
on_flight none test k = none
on_flight (some f) test k = if test f then some (k f) else none

-- One event; `none` if it cannot happen in this state.
unfoldable pub step : (Str → Option Json) → ChatState → ChatEvent → Option ChatState
unfolding generate stop clear on_response on_chunk on_close on_reject on_flight find_flight
step parse s (set_input t) = some (record s { input = t })
step parse s (generate_of v m t n) = some (generate v m t n s)
step parse s stop_now = some (stop s)
step parse s clear_now = some (clear s)
step parse s (response i r) =
    on_flight (find_flight i s.flights) (λ f. not f.reading) λ f. on_response f r s
step parse s (chunk i t) =
    on_flight (find_flight i s.flights) (λ f. f.reading) λ f. on_chunk parse f t s
step parse s (done i) =
    on_flight (find_flight i s.flights) (λ f. f.reading) λ f. on_close (over f s)
step parse s (reject i r) = on_flight (find_flight i s.flights) (λ f. true) λ f. on_reject f r s

-- The states that a sequence of events leads to.
pub data Reaches (parse : Str → Option Json) (s : ChatState) : ChatState → Type 0 where
  here : Reaches parse s s
  next :
      {t u : ChatState}
      → Reaches parse s t
      → (e : ChatEvent) → step parse t e ≡ some u
      → Reaches parse s u
