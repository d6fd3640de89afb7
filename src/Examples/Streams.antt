-- ===== src/Examples/Streams.antt =====
-- The stream readers at concrete events and lines.
use swarm_engine.Prelude.{
  ℕ, ◌+◌, ◌-◌, ◌≡◌, refl, true, false, Option, none, some, List, [], ◌∷◌, ◌++◌, map, arith, length,
}
use swarm_engine.Text.{Str, codes, str_eq, trim, starts_with}
use swarm_engine.Json.{Json, num}
use swarm_engine.Sse.{process_lines, data_of, field_of}
use swarm_engine.Sse.Lines.{
  data_line, IsPlain, message_of, process_lines-data, process_lines-repeats, AllCarry,
}
use swarm_engine.StreamClient.{
  error, HttpStreamClientOptions, status, timed_out, failed, Client, Event, send, reconnect,
  timeout, reject, finish, Flight, find_flight, waiting, reading,
}
use swarm_engine.HttpStream.{step, run, new_client}
use swarm_engine.HttpStream.Accounting.{connectings, failures, sends, connectings-add-reconnects}
use swarm_engine.HttpStream.Timeout.{timeout_reconnects_twice}
use swarm_engine.HttpStream.Session.{Sessions, no_session, view}
use swarm_engine.HttpStream.Session.Runs.{run-Sessions}
use swarm_engine.HttpStream.FailAll.{fail_all, unsettled}
use swarm_engine.HttpStream.Recovery.{Resent, recovers}

abbrev options : HttpStreamClientOptions
options = record { url = codes "/cluster/status"; method = codes "GET"; auto_reconnect = true }

-- A line is parsed to its length.
abbrev parse_line : Str → Option ℕ
parse_line l = some (length l)

abbrev a_flight : Flight
a_flight = record {
  id = 0;
  sent = record { url = []; method = []; headers = []; body = none };
  armed = true;
  phase = waiting;
  buffer = [];
}

abbrev a_client : Client ℕ ℕ
a_client = record new_client { flights = a_flight ∷ []; next_id = 1; abort_controller = some 0 }

abbrev reading_flight : Flight
reading_flight = record a_flight { armed = false; phase = reading }

abbrev reading_client : Client ℕ ℕ
reading_client = record new_client { flights = reading_flight ∷ []; next_id = 1; reader = some 0 }

abbrev some_events : List (Event ℕ)
some_events = send none ∷ reject 0 7 true ∷ finish 0 true ∷ reconnect ∷ []

abbrev after_events : Option (Client ℕ ℕ)
after_events = run options parse_line new_client some_events

abbrev log_of : Option (Client ℕ ℕ) → Client ℕ ℕ
log_of none = new_client
log_of (some c) = c

ran : run options parse_line new_client some_events ≡ some (log_of after_events)
unfolding run step
ran = refl

connectings-add-reconnects_example :
    connectings (log_of after_events).log + (log_of after_events).reconnects
    ≡ sends some_events 0 + failures (log_of after_events).log
connectings-add-reconnects_example = connectings-add-reconnects options parse_line some_events ran

timeout_reconnects_twice_example :
    (c : Client ℕ ℕ) × (run options parse_line a_client (timeout 0 ∷ reject 0 7 true ∷ []) ≡ some c)
    × (c.reconnects ≡ 0 + 2)
    × (c.log ≡ failed 7 ∷ status error ∷ timed_out ∷ status error ∷ [])
unfolding find_flight
timeout_reconnects_twice_example =
    timeout_reconnects_twice options parse_line a_client 0 a_flight 7 true refl refl refl refl

abbrev some_chunks : List Str
some_chunks = codes "ab" ∷ codes "c\nd" ∷ []

abbrev parse_json : Str → Option Json
parse_json t = some (num (length t))

a_value-IsPlain : IsPlain (codes "{}")
unfolding trim starts_with
a_value-IsPlain = record { trimmed = refl; colon = refl }

process_lines-data_example :
    process_lines parse_json (map data_line (codes "{}" ∷ []))
    ≡ map (message_of parse_json) (codes "{}" ∷ [])
unfolding data_of
process_lines-data_example =
    process_lines-data parse_json (codes "{}" ∷ []) (a_value-IsPlain, refl, tt)

process_lines-repeats_example :
    (length (process_lines parse_json (data_line (codes "{}") ∷ codes "id: 5" ∷ [])) ≡ 2)
    × AllCarry
        (data_of parse_json (codes "{}"))
        (process_lines parse_json (data_line (codes "{}") ∷ codes "id: 5" ∷ []))
unfolding data_of field_of str_eq
process_lines-repeats_example =
    process_lines-repeats parse_json (codes "{}") (codes "id: 5" ∷ []) a_value-IsPlain refl
      ((record { name = codes "id"; value = codes "5" }, refl, refl), tt)

run-Sessions_example : Sessions true no_session (view (log_of after_events))
run-Sessions_example = run-Sessions options parse_line some_events ran

recovers_example :
    (d : Client ℕ ℕ) × (run options parse_line reading_client
        (fail_all 7 reading_client.flights ++ reconnect ∷ [])
      ≡ some d)
    × Resent options reading_client.previous_send_options
        (reading_client.reconnects + unsettled reading_client.flights - 1)
        d
recovers_example = recovers options parse_line 7 reading_client refl (omega arith)
