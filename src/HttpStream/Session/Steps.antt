-- ===== src/HttpStream/Session/Steps.antt =====
-- The events of the client of src/frontend/src/services/http-stream.ts as changes of its session.
use Prim.Native.Nat.{zero, suc}
use swarm_engine.Prelude.{
  ℕ, ◌≡◌, refl, sym, ap, subst, ◌∙◌, Bool, true, false, not, Option, none, some, List, ◌∷◌,
  if◌then◌else◌, some_inj,
}
use swarm_engine.Text.{Str}
use swarm_engine.LineBuffer.{feed}
use swarm_engine.StreamClient.{
  HttpStreamClientStatus, connecting, connected, disconnected, error, HttpStreamClientOptions,
  HttpStreamClientSendOptions, Client, Event, send, abort, reconnect, timeout, response, chunk,
  done, reject, finish, Flight, Response, Phase, waiting, reading, rejecting, settled, is_waiting,
  is_reading, is_settled, find_flight, put_flight, drop_flight, is_ndjson,
}
use swarm_engine.HttpStream.{
  on_status_change, reconnect_from, do_send, on_timeout, on_response, on_lines, on_chunk, on_done,
  on_reject, on_finish, do_abort, when, on_flight, step, cleanup_reader, abort_current,
  update_flight, tell,
}
use swarm_engine.HttpStream.Accounting.{on_flight-elim}
use swarm_engine.HttpStream.Timeout.{id_of_found}
use swarm_engine.HttpStream.Session.{
  Session, tells, Moves, moved, Follows, begin, retry, accept, refuse, read, lose_reader, close,
  fail, time_out, give_up, leave, phases_of, statuses, view,
}
use swarm_engine.HttpStream.Session.Phases.{
  put_flight-Moves, put_flight-phases, drop_flight-Leaves, waits, reads, settles, unsettled,
}
use swarm_engine.HttpStream.Session.Views.{
  view-on_status_change, view-cleanup_reader, view-abort_current, view-on_lines, flights-on_lines,
}

module _ {M E : Type 0} (options : HttpStreamClientOptions) where
  -- The connection ends with a status, after a request went to another phase.
  ends :
      (s : HttpStreamClientStatus) (c d : Client M E) {ps : List Phase}
      → view d ≡ moved ps (view c)
      → view (on_status_change options s d) ≡ tells options.auto_reconnect s (moved ps (view c))
  ends s c d h = view-on_status_change options s d ∙ ap (tells options.auto_reconnect s) h

  abbrev put : Flight → Client M E → List Phase
  put g c = phases_of (put_flight g c.flights)

  send-Follows :
      (o : Option HttpStreamClientSendOptions) (c : Client M E)
      → Follows options.auto_reconnect (view c) (view (do_send options o c))
  unfolding do_send
  send-Follows o c =
      subst (Follows options.auto_reconnect (view c))
        (sym (
          ap (λ (v : Session). moved (waiting ∷ v.phases) v)
            (view-on_status_change options connecting (record c { previous_send_options = o }))))
        begin

  reconnect-Follows :
      (n : ℕ) (c : Client M E) {c' : Client M E}
      → c.reconnects ≡ n
      → reconnect_from options c n ≡ some c'
      → Follows options.auto_reconnect (view c) (view c')
  unfolding reconnect_from do_send
  reconnect-Follows zero c e h = cc
  reconnect-Follows (suc n) c {c'} e h =
      subst (λ d. Follows options.auto_reconnect (view c) (view d)) (some_inj h)
        (subst (Follows options.auto_reconnect (view c))
          (sym (
            ap (λ (v : Session). moved (waiting ∷ v.phases) v)
              (view-on_status_change options connecting (record c { reconnects = n }))))
          (retry n e))

  abort-Follows :
      (c : Client M E) → Follows options.auto_reconnect (view c) (view (do_abort options c))
  unfolding do_abort
  abort-Follows c =
      subst (Follows options.auto_reconnect (view c))
        (sym (
          ends disconnected c (record (abort_current c) { abort_controller = none; reader = none })
            (view-abort_current c)))
        give_up

  timeout-Follows :
      (f : Flight) (c : Client M E)
      → find_flight f.id c.flights ≡ some f
      → Follows options.auto_reconnect (view c) (view (on_timeout options f c))
  unfolding on_timeout update_flight tell
  timeout-Follows f c h =
      let g = record f { armed = false } in
      subst (Follows options.auto_reconnect (view c))
        (sym (
          ends error c (abort_current (update_flight g c)) (
            view-abort_current (update_flight g c)
            ∙ ap (λ ps. moved ps (view c)) (put_flight-phases g f c.flights h refl))))
        time_out

  response-Follows :
      (f : Flight) (r : Response) (c : Client M E)
      → find_flight f.id c.flights ≡ some f
      → is_waiting f.phase ≡ true
      → Follows options.auto_reconnect (view c) (view (on_response options f r c))
  unfolding on_response update_flight
  response-Follows f r c h w = go (is_ndjson r) r.has_body
    where
      took : (g : Flight) → g.id ≡ f.id → Moves waiting g.phase (phases_of c.flights) (put g c)
      took g e =
          subst (λ p. Moves p g.phase (phases_of c.flights) (put g c)) (waits f.phase w)
            (put_flight-Moves g f c.flights (rw e h))

      go :
          (a b : Bool)
          → Follows options.auto_reconnect (view c) (
              view (
                if a
                then if b
                  then on_status_change options connected (
                      update_flight
                        (record f { armed = false; phase = reading })
                        (record c { reader = some f.id }))
                  else on_status_change options error (
                      update_flight
                        (record f { armed = false; phase = settled })
                        (record c { reader = none }))
                else on_status_change options error
                    (update_flight (record f { armed = false; phase = settled }) c)))
      go true true =
          subst (Follows options.auto_reconnect (view c))
            (sym (
              ends connected c
                (update_flight (record f { armed = false; phase = reading })
                  (record c { reader = some f.id }))
                refl))
            (accept (took (record f { armed = false; phase = reading }) refl))
      go true false =
          subst (Follows options.auto_reconnect (view c))
            (sym (
              ends error c
                (update_flight (record f { armed = false; phase = settled })
                  (record c { reader = none }))
                refl))
            (refuse (took (record f { armed = false; phase = settled }) refl))
      go false b =
          subst (Follows options.auto_reconnect (view c))
            (sym
              (ends error c (update_flight (record f { armed = false; phase = settled }) c) refl))
            (refuse (took (record f { armed = false; phase = settled }) refl))

  module _ (parse : Str → Option M) where
    chunk-Follows :
        (f : Flight) (t : Str) (c : Client M E)
        → find_flight f.id c.flights ≡ some f
        → is_reading f.phase ≡ true
        → Follows options.auto_reconnect (view c) (view (on_chunk parse f t c))
    unfolding on_chunk update_flight
    chunk-Follows f t c h w =
        subst (Follows options.auto_reconnect (view c)) (sym same) (go c.reader)
      where
        next : Option ℕ → Flight
        next o = record f {
          buffer = (feed f.buffer t).1;
          phase = elim o [ none ↦ rejecting | some j ↦ reading ];
        }

        same : view (on_chunk parse f t c) ≡ moved (put (next c.reader) c) (view c)
        same =
            let d = on_lines parse (feed f.buffer t).0 c in
            ap
              (λ fs. record {
                phases = phases_of (put_flight (next c.reader) fs);
                reconnects = d.reconnects;
                told = statuses d.log;
              })
              (flights-on_lines parse (feed f.buffer t).0 c)
            ∙ ap (moved (put (next c.reader) c)) (view-on_lines parse (feed f.buffer t).0 c)

        go :
            (o : Option ℕ)
            → Follows options.auto_reconnect (view c) (moved (put (next o) c) (view c))
        go none = lose_reader (
            subst (λ p. Moves p rejecting (phases_of c.flights) (put (next none) c))
              (reads f.phase w) (put_flight-Moves (next none) f c.flights h))
        go (some j) = read (
            subst (λ p. Moves p reading (phases_of c.flights) (put (next (some j)) c))
              (reads f.phase w) (put_flight-Moves (next (some j)) f c.flights h))

  done-Follows :
      (f : Flight) (ok : Bool) (c : Client M E)
      → find_flight f.id c.flights ≡ some f
      → is_reading f.phase ≡ true
      → Follows options.auto_reconnect (view c) (view (on_done options f ok c))
  unfolding on_done update_flight
  done-Follows f ok c h w =
      let g = record f { phase = settled } in
      subst (Follows options.auto_reconnect (view c))
        (sym (
          ends disconnected c (cleanup_reader ok (update_flight g c))
            (view-cleanup_reader ok (update_flight g c))))
        (close (
          subst (λ p. Moves p settled (phases_of c.flights) (put g c)) (reads f.phase w)
            (put_flight-Moves g f c.flights h)))

  reject-Follows :
      (f : Flight) (x : E) (ok : Bool) (c : Client M E)
      → find_flight f.id c.flights ≡ some f
      → not (is_settled f.phase) ≡ true
      → Follows options.auto_reconnect (view c) (view (on_reject options f x ok c))
  unfolding on_reject update_flight tell
  reject-Follows f x ok c h w =
      let g = record f { armed = false; phase = settled } in
      subst (Follows options.auto_reconnect (view c))
        (sym (
          ends error c (cleanup_reader ok (update_flight g c))
            (view-cleanup_reader ok (update_flight g c))))
        (fail (unsettled f.phase w) (put_flight-Moves g f c.flights h))

  finish-Follows :
      (f : Flight) (ok : Bool) (c : Client M E)
      → find_flight f.id c.flights ≡ some f
      → is_settled f.phase ≡ true
      → Follows options.auto_reconnect (view c) (view (on_finish f ok c))
  unfolding on_finish
  finish-Follows f ok c h w =
      subst (Follows options.auto_reconnect (view c))
        (sym
          (ap (λ v. moved (phases_of (drop_flight f.id c.flights)) v) (view-cleanup_reader ok c)))
        (leave (drop_flight-Leaves f.id f c.flights h (settles f.phase w)))

  module _ (parse : Str → Option M) where
    -- A callback runs for the flight that the client finds by its own name.
    of_flight :
        (c : Client M E) (i : ℕ) (b : Flight → Bool) (k : Flight → Client M E) {c' : Client M E}
        → on_flight (find_flight i c.flights) (λ f. when (b f) (k f)) ≡ some c'
        → ((f : Flight)
            → find_flight f.id c.flights ≡ some f
            → b f ≡ true
            → Follows options.auto_reconnect (view c) (view (k f)))
        → Follows options.auto_reconnect (view c) (view c')
    of_flight c i b k h follows =
        on_flight-elim options parse (λ d. Follows options.auto_reconnect (view c) (view d))
          (find_flight i c.flights) b k h
          (λ f e t.
            follows f
              (subst (λ j. find_flight j c.flights ≡ some f) (sym (id_of_found i c.flights f e)) e)
              t)

    -- Each event is a change that `Follows` allows.
    pub step-Follows :
        (c : Client M E) (e : Event E) {c' : Client M E}
        → step options parse c e ≡ some c'
        → Follows options.auto_reconnect (view c) (view c')
    unfolding step
    step-Follows c (send o) h =
        subst (λ d. Follows options.auto_reconnect (view c) (view d)) (some_inj h)
          (send-Follows o c)
    step-Follows c abort h =
        subst (λ d. Follows options.auto_reconnect (view c) (view d)) (some_inj h) (abort-Follows c)
    step-Follows c reconnect h = reconnect-Follows c.reconnects c refl h
    step-Follows c (timeout i) h =
        of_flight c i (λ f. f.armed) (λ f. on_timeout options f c) h
          (λ f k _. timeout-Follows f c k)
    step-Follows c (response i r) h =
        of_flight c i (λ f. is_waiting f.phase) (λ f. on_response options f r c) h
          (λ f k w. response-Follows f r c k w)
    step-Follows c (chunk i t) h =
        of_flight c i (λ f. is_reading f.phase) (λ f. on_chunk parse f t c) h
          (λ f k w. chunk-Follows parse f t c k w)
    step-Follows c (done i ok) h =
        of_flight c i (λ f. is_reading f.phase) (λ f. on_done options f ok c) h
          (λ f k w. done-Follows f ok c k w)
    step-Follows c (reject i x ok) h =
        of_flight c i (λ f. not (is_settled f.phase)) (λ f. on_reject options f x ok c) h
          (λ f k w. reject-Follows f x ok c k w)
    step-Follows c (finish i ok) h =
        of_flight c i (λ f. is_settled f.phase) (λ f. on_finish f ok c) h
          (λ f k w. finish-Follows f ok c k w)
