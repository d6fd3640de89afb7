-- ===== src/HttpStream.antt =====
-- src/frontend/src/services/http-stream.ts: the client of an NDJSON stream. The client is a record,
-- each callback that the browser makes is an event, and a step takes an event in turn. One client can
-- have several requests in flight, since a reconnect timer sends while an earlier request settles.
pub mod Accounting
pub mod Timeout
pub mod Messages
pub mod Session
pub mod Told
pub mod FailAll
pub mod Recovery
use Prim.Native.Nat.{zero, suc}
use swarm_engine.Prelude.{
  ℕ, ◌+◌, Bool, false, not, ◌&&◌, Option, none, some, List, [], ◌∷◌, ltb, if◌then◌else◌,
}
use swarm_engine.Text.{Str}
use swarm_engine.StreamClient.{
  Client, Event, Flight, HttpStreamClientOptions, HttpStreamClientSendOptions,
  HttpStreamClientStatus, Output, Response, abort, chunk, connected, connecting, disconnected, done,
  drop_flight, error, failed, find_flight, finish, is_failure, is_ndjson, is_reading, is_settled,
  is_waiting, message, options_or_empty, put_flight, reading, reconnect, reject, rejecting, request,
  response, send, settled, status, timed_out, timeout, timeout_ms, waiting,
}
use swarm_engine.LineBuffer.{feed}

module _ {M E : Type 0} where
  abbrev pub new_client : Client M E
  new_client = record {
    reader = none;
    abort_controller = none;
    previous_send_options = none;
    reconnects = 0;
    flights = [];
    next_id = 0;
    aborted = [];
    log = [];
  }

  unfoldable tell : Output M E → Client M E → Client M E
  tell o c = record c { log = o ∷ c.log }

  -- `onStatusChange`: a failure starts a reconnect timer, if the owner asked for it.
  unfoldable on_status_change :
      HttpStreamClientOptions → HttpStreamClientStatus → Client M E → Client M E
  unfolding tell
  on_status_change options s c = tell (status s) (
      if options.auto_reconnect && is_failure s
      then record c { reconnects = c.reconnects + 1 }
      else c)

  -- `cleanupReader`; `ok` says whether the reader could be cancelled.
  unfoldable cleanup_reader : Bool → Client M E → Client M E
  cleanup_reader ok c = if ok then record c { reader = none } else c

  unfoldable update_flight : Flight → Client M E → Client M E
  unfolding put_flight
  update_flight f c = record c { flights = put_flight f c.flights }

  -- `abortController?.abort()`: the signal of whichever request set the variable last
  unfoldable abort_current : Client M E → Client M E
  abort_current c = elim c.abort_controller [
    | none ↦ c
    | some i ↦ record c { aborted = i ∷ c.aborted }
  ]

  -- `send`, up to the call of `fetch`
  unfoldable do_send :
      HttpStreamClientOptions → Option HttpStreamClientSendOptions → Client M E → Client M E
  unfolding on_status_change timeout_ms request
  do_send options sent c =
      let o = options_or_empty sent in
      let c' = on_status_change options connecting (record c { previous_send_options = sent }) in
      record c' {
        abort_controller = some c'.next_id;
        next_id = c'.next_id + 1;
        flights =
            record {
              id = c'.next_id;
              sent = request options o;
              armed = ltb 0 (timeout_ms o.payload);
              phase = waiting;
              buffer = [];
            }
            ∷ c'.flights;
      }

  -- The callback of the timeout.
  unfoldable on_timeout : HttpStreamClientOptions → Flight → Client M E → Client M E
  unfolding abort_current on_status_change update_flight tell
  on_timeout options f c = tell timed_out (
      on_status_change options error (abort_current (update_flight (record f { armed = false }) c)))

  -- The first part of the `then` callback, up to the first read.
  unfoldable on_response : HttpStreamClientOptions → Flight → Response → Client M E → Client M E
  unfolding on_status_change update_flight is_ndjson
  on_response options f r c =
      if is_ndjson r
      then if r.has_body
        then on_status_change options connected (
            update_flight (record f { armed = false; phase = reading })
              (record c { reader = some f.id }))
        else on_status_change options error (
            update_flight (record f { armed = false; phase = settled })
              (record c { reader = none }))
      else on_status_change options error
          (update_flight (record f { armed = false; phase = settled }) c)

  -- A line that does not parse is skipped.
  unfoldable on_line : (Str → Option M) → Str → Client M E → Client M E
  unfolding tell
  on_line parse line c = elim (parse line) [ none ↦ c | some m ↦ tell (message m) c ]

  unfoldable on_lines : (Str → Option M) → List Str → Client M E → Client M E
  unfolding on_line
  on_lines parse [] c = c
  on_lines parse (l ∷ ls) c = on_lines parse ls (on_line parse l c)

  -- A chunk, and the next read: it fails if `abort` has taken the reader away.
  unfoldable pub on_chunk : (Str → Option M) → Flight → Str → Client M E → Client M E
  unfolding on_lines update_flight feed
  on_chunk parse f text c =
      let (lines, rest) = feed f.buffer text in
      update_flight
        (record f { buffer = rest; phase = elim c.reader [ none ↦ rejecting | some j ↦ reading ] })
        (on_lines parse lines c)

  unfoldable on_done : HttpStreamClientOptions → Flight → Bool → Client M E → Client M E
  unfolding on_status_change cleanup_reader update_flight
  on_done options f ok c =
      on_status_change options disconnected
        (cleanup_reader ok (update_flight (record f { phase = settled }) c))

  -- The `catch` callback.
  unfoldable on_reject : HttpStreamClientOptions → Flight → E → Bool → Client M E → Client M E
  unfolding on_status_change cleanup_reader update_flight tell
  on_reject options f e ok c = tell (failed e) (
      on_status_change options error
        (cleanup_reader ok (update_flight (record f { armed = false; phase = settled }) c)))

  -- The `finally` callback; the request is over.
  unfoldable on_finish : Flight → Bool → Client M E → Client M E
  unfolding cleanup_reader drop_flight
  on_finish f ok c = record (cleanup_reader ok c) {
    abort_controller = none;
    flights = drop_flight f.id c.flights;
  }

  -- `abort`
  unfoldable do_abort : HttpStreamClientOptions → Client M E → Client M E
  unfolding on_status_change abort_current
  do_abort options c =
      on_status_change options disconnected
        (record (abort_current c) { abort_controller = none; reader = none })

  -- A callback of a request runs only while the request waits for it.
  unfoldable when : Bool → Client M E → Option (Client M E)
  when b c = if b then some c else none

  unfoldable on_flight : Option Flight → (Flight → Option (Client M E)) → Option (Client M E)
  on_flight none k = none
  on_flight (some f) k = k f

  -- The callback of one of `n` reconnect timers.
  unfoldable reconnect_from : HttpStreamClientOptions → Client M E → ℕ → Option (Client M E)
  unfolding do_send
  reconnect_from options c zero = none
  reconnect_from options c (suc n) =
      some (do_send options c.previous_send_options (record c { reconnects = n }))

  -- One event; `none` if it cannot happen in this state.
  unfoldable pub step :
      HttpStreamClientOptions → (Str → Option M) → Client M E → Event E → Option (Client M E)
  unfolding do_send reconnect_from do_abort on_timeout on_response on_chunk on_done on_reject
      on_finish when on_flight find_flight
  step options parse c (send o) = some (do_send options o c)
  step options parse c abort = some (do_abort options c)
  step options parse c reconnect = reconnect_from options c c.reconnects
  step options parse c (timeout i) =
      on_flight (find_flight i c.flights) λ f. when f.armed (on_timeout options f c)
  step options parse c (response i r) =
      on_flight (find_flight i c.flights) λ f. when (is_waiting f.phase) (on_response options f r c)
  step options parse c (chunk i text) =
      on_flight (find_flight i c.flights) λ f. when (is_reading f.phase) (on_chunk parse f text c)
  step options parse c (done i ok) =
      on_flight (find_flight i c.flights) λ f. when (is_reading f.phase) (on_done options f ok c)
  step options parse c (reject i e ok) =
      on_flight (find_flight i c.flights)
        λ f. when (not (is_settled f.phase)) (on_reject options f e ok c)
  step options parse c (finish i ok) =
      on_flight (find_flight i c.flights) λ f. when (is_settled f.phase) (on_finish f ok c)

  unfoldable run_from :
      HttpStreamClientOptions
      → (Str → Option M)
      → Option (Client M E)
      → List (Event E)
      → Option (Client M E)
  unfolding step
  run_from options parse none es = none
  run_from options parse (some c) [] = some c
  run_from options parse (some c) (e ∷ es) = run_from options parse (step options parse c e) es

  -- A sequence of events; `none` if one of them cannot happen.
  unfoldable pub run :
      HttpStreamClientOptions → (Str → Option M) → Client M E → List (Event E) → Option (Client M E)
  unfolding run_from
  run options parse c es = run_from options parse (some c) es
