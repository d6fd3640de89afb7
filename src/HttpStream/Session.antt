-- ===== src/HttpStream/Session.antt =====
-- What an owner can see of the client of src/frontend/src/services/http-stream.ts: the phases of its
-- requests, the pending reconnects, and the statuses that it was told. `Follows` is what may happen to
-- these, whatever the client keeps besides.
pub mod Phases
pub mod Views
pub mod Steps
pub mod Runs
use Prim.Native.Nat.{zero, suc, ◌<◌, ◌≤◌, max, min}
use swarm_engine.Prelude.{
  ℕ, ◌+◌, ◌-◌, ◌*◌, ◌/◌, ◌%◌, String, ◌≡◌, refl, sym, ap, ap₂, subst, ◌∙◌, fun_ext, ◌≢◌, ◌↔◌, ◌⊎◌,
  inl, inr, Bool, true, false, not, ◌&&◌, ◌||◌, Option, none, some, List, [], ◌∷◌, ◌++◌, map,
  append-nil, append_assoc, arith, ltb, leb, ◌==◌, if◌then◌else◌, ==_iff, ==_refl, Bool-cases,
  Option-cases, some_inj, lt→ltb, ge→ltb, ltb→lt, ltb→ge, length, get_elem?, take, drop,
  length-append, take-append-drop, length-drop, take-length-append, drop-append_add, last?, init,
  last?-append, init-append, init-append-last, any, all, filter, find, find_index, length-map,
}
use swarm_engine.Text.{Str}
use swarm_engine.LineBuffer.{feed}
use swarm_engine.StreamClient.{
  HttpStreamClientStatus, connecting, connected, disconnected, error, HttpStreamClientOptions,
  HttpStreamClientSendOptions, Output, status, message, Client, Event, send, abort, reconnect,
  timeout, response, chunk, done, reject, finish, Flight, Response, Phase, waiting, reading,
  rejecting, settled, is_waiting, is_reading, is_settled, is_failure, find_flight, put_flight,
  drop_flight, is_ndjson,
}
use swarm_engine.HttpStream.{
  on_status_change, reconnect_from, do_send, on_timeout, on_response, on_line, on_lines, on_chunk,
  on_done, on_reject, on_finish, do_abort, when, on_flight, step, cleanup_reader, abort_current,
  update_flight, tell, run, run_from, new_client,
}
use swarm_engine.HttpStream.Accounting.{on_flight-elim}
use swarm_engine.HttpStream.Timeout.{id_of_found}

pub record Session : Type 0 where
  pub phases : List Phase
  pub reconnects : ℕ
  pub told : List HttpStreamClientStatus

-- The owner is told a status; a failure starts a reconnect, if it asked for it.
abbrev tells : Bool → HttpStreamClientStatus → Session → Session
tells auto s v = record {
  phases = v.phases;
  reconnects = if auto && is_failure s then v.reconnects + 1 else v.reconnects;
  told = s ∷ v.told;
}

-- One request goes from a phase to another.
pub data Moves (p q : Phase) : List Phase → List Phase → Type 0 where
  this : {ps : List Phase} → Moves p q (p ∷ ps) (q ∷ ps)
  later : {r : Phase} {ps qs : List Phase} → Moves p q ps qs → Moves p q (r ∷ ps) (r ∷ qs)

-- One request that is settled goes away.
pub data Leaves : List Phase → List Phase → Type 0 where
  this : {ps : List Phase} → Leaves (settled ∷ ps) ps
  later : {r : Phase} {ps qs : List Phase} → Leaves ps qs → Leaves (r ∷ ps) (r ∷ qs)

abbrev moved : List Phase → Session → Session
moved ps v = record v { phases = ps }

-- What may happen to a session.
pub data Follows (auto : Bool) : Session → Session → Type 0 where
  begin : {v : Session} → Follows auto v (tells auto connecting (moved (waiting ∷ v.phases) v))
  retry :
      {v : Session} (n : ℕ)
      → v.reconnects ≡ suc n
      → Follows auto v
          (tells auto connecting (record v { phases = waiting ∷ v.phases; reconnects = n }))
  accept :
      {v : Session} {ps : List Phase}
      → Moves waiting reading v.phases ps
      → Follows auto v (tells auto connected (moved ps v))
  refuse :
      {v : Session} {ps : List Phase}
      → Moves waiting settled v.phases ps
      → Follows auto v (tells auto error (moved ps v))
  read :
      {v : Session} {ps : List Phase}
      → Moves reading reading v.phases ps
      → Follows auto v (moved ps v)
  lose_reader :
      {v : Session} {ps : List Phase}
      → Moves reading rejecting v.phases ps
      → Follows auto v (moved ps v)
  close :
      {v : Session} {ps : List Phase}
      → Moves reading settled v.phases ps
      → Follows auto v (tells auto disconnected (moved ps v))
  fail :
      {v : Session} {p : Phase} {ps : List Phase}
      → is_settled p ≡ false
      → Moves p settled v.phases ps
      → Follows auto v (tells auto error (moved ps v))
  time_out : {v : Session} → Follows auto v (tells auto error v)
  give_up : {v : Session} → Follows auto v (tells auto disconnected v)
  leave : {v : Session} {ps : List Phase} → Leaves v.phases ps → Follows auto v (moved ps v)

-- What can happen to a session in turn.
pub data Sessions (auto : Bool) (v : Session) : Session → Type 0 where
  start : Sessions auto v v
  and_next : {w u : Session} → Sessions auto v w → Follows auto w u → Sessions auto v u

abbrev pub no_session : Session
no_session = record { phases = []; reconnects = 0; told = [] }

abbrev phases_of : List Flight → List Phase
phases_of = map (λ f. f.phase)

module _ {M E : Type 0} where
  abbrev statuses : List (Output M E) → List HttpStreamClientStatus
  statuses [] = []
  statuses (status s ∷ l) = s ∷ statuses l
  statuses (_ ∷ l) = statuses l

  -- What the owner sees of a client.
  abbrev pub view : Client M E → Session
  view c = record { phases = phases_of c.flights; reconnects = c.reconnects; told = statuses c.log }
