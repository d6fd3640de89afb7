-- ===== src/StreamClient.antt =====
-- src/frontend/src/services/http-stream.ts: the data of the client of an NDJSON stream: its options, the
-- request that it sends, its requests in flight, its events, and the tests on them.
use swarm_engine.Prelude.{
  ℕ, Bool, true, false, ◌&&◌, Option, none, some, List, [], ◌∷◌, ◌==◌, if◌then◌else◌,
}
use swarm_engine.Text.{Str, codes, str_eq, truthy}

pub data HttpStreamClientStatus : Type 0 where
  connecting connected disconnected error : HttpStreamClientStatus

pub record HttpStreamClientOptions : Type 0 where
  pub url : Str
  pub method : Str
  pub auto_reconnect : Bool

-- The data to send: its `type` field, if it has one, and its JSON text.
pub record Payload : Type 0 where
  pub type : Option Str
  pub text : Str

pub record HttpStreamClientSendOptions : Type 0 where
  pub headers : List (Str × Str)
  pub payload : Option Payload
  pub body : Option Str

-- What is handed to `fetch`. A later header of one name replaces an earlier one.
pub record Request : Type 0 where
  pub url : Str
  pub method : Str
  pub headers : List (Str × Str)
  pub body : Option Str

abbrev no_options : HttpStreamClientSendOptions
no_options = record { headers = []; payload = none; body = none }

-- `options || {}`
abbrev pub options_or_empty : Option HttpStreamClientSendOptions → HttpStreamClientSendOptions
options_or_empty none = no_options
options_or_empty (some o) = o

-- `(data && JSON.stringify(data)) || body`
unfoldable request_body : Option Payload → Option Str → Option Str
request_body none body = body
request_body (some p) body = if truthy p.text then some p.text else body

unfoldable pub request : HttpStreamClientOptions → HttpStreamClientSendOptions → Request
unfolding request_body
request options o = record {
  url = options.url;
  method = options.method;
  headers = (codes "Content-Type", codes "application/json") ∷ o.headers;
  body = request_body o.payload o.body;
}

-- `data?.type === 'queue_info'`
unfoldable is_queue_info : Option Payload → Bool
unfolding str_eq
is_queue_info none = false
is_queue_info (some p) = elim p.type [ none ↦ false | some t ↦ str_eq t (codes "queue_info") ]

-- `timeoutMs`
unfoldable pub timeout_ms : Option Payload → ℕ
unfolding is_queue_info
timeout_ms p = if is_queue_info p then 0 else 5000

-- What a request waits for: the response, the read that it made of a reader, or its `finally`.
pub data Phase : Type 0 where
  waiting : Phase
  reading : Phase
  rejecting : Phase
  settled : Phase

-- A request in flight. `armed` says that its timeout is pending.
pub record Flight : Type 0 where
  pub id : ℕ
  pub sent : Request
  pub armed : Bool
  pub phase : Phase
  pub buffer : Str

-- What the client tells its owner.
pub data Output (M E : Type 0) : Type 0 where
  status : HttpStreamClientStatus → Output M E
  message : M → Output M E
  timed_out : Output M E
  failed : E → Output M E

-- The variables of the factory's closure, the timers that it started, and what it has told its owner,
-- the last first. `reader` and `abort_controller` name the request that set them.
pub record Client (M E : Type 0) : Type 0 where
  pub reader : Option ℕ
  pub abort_controller : Option ℕ
  pub previous_send_options : Option HttpStreamClientSendOptions
  pub reconnects : ℕ
  pub flights : List Flight
  pub next_id : ℕ
  pub aborted : List ℕ
  pub log : List (Output M E)

-- `response`, as far as the code reads it.
pub record Response : Type 0 where
  pub status : ℕ
  pub content_type : Option Str
  pub has_body : Bool

-- What happens to a client: calls of its owner, and callbacks of the browser.
pub data Event (E : Type 0) : Type 0 where
  send : Option HttpStreamClientSendOptions → Event E
  abort : Event E
  reconnect : Event E
  timeout : ℕ → Event E
  response : ℕ → Response → Event E
  chunk : ℕ → Str → Event E
  done : ℕ → Bool → Event E
  reject : ℕ → E → Bool → Event E
  finish : ℕ → Bool → Event E

unfoldable pub find_flight : ℕ → List Flight → Option Flight
find_flight i [] = none
find_flight i (f ∷ fs) = if f.id == i then some f else find_flight i fs

unfoldable pub put_flight : Flight → List Flight → List Flight
put_flight g [] = []
put_flight g (f ∷ fs) = if f.id == g.id then g ∷ fs else f ∷ put_flight g fs

unfoldable pub drop_flight : ℕ → List Flight → List Flight
drop_flight i [] = []
drop_flight i (f ∷ fs) = if f.id == i then fs else f ∷ drop_flight i fs

abbrev pub is_failure : HttpStreamClientStatus → Bool
is_failure disconnected = true
is_failure error = true
is_failure _ = false

abbrev is_connecting : HttpStreamClientStatus → Bool
is_connecting connecting = true
is_connecting _ = false

abbrev pub is_waiting : Phase → Bool
is_waiting waiting = true
is_waiting _ = false

abbrev pub is_reading : Phase → Bool
is_reading reading = true
is_reading _ = false

abbrev pub is_settled : Phase → Bool
is_settled settled = true
is_settled _ = false

-- A response is refused for its status code or its content type.
unfoldable pub is_ndjson : Response → Bool
unfolding str_eq
is_ndjson r =
    r.status == 200
    && elim r.content_type [ none ↦ false | some t ↦ str_eq t (codes "application/x-ndjson") ]
