-- ===== src/HttpStream/Timeout.antt =====
-- The timeout of a request, in src/frontend/src/services/http-stream.ts.
use swarm_engine.Prelude.{
  ℕ, ◌+◌, ◌≡◌, ap, ◌∙◌, inl, inr, Bool, true, false, not, Option, some, List, [], ◌∷◌, arith, ◌==◌,
  ==_iff, Bool-cases,
}
use swarm_engine.Text.{Str}
use swarm_engine.StreamClient.{
  error, HttpStreamClientOptions, Output, status, timed_out, failed, Client, Event, timeout, reject,
  Flight, is_settled, find_flight, put_flight, waiting,
}
use swarm_engine.HttpStream.{on_timeout, on_reject, when, on_flight, step, run_from, run}

pub id_of_found : (i : ℕ) (fs : List Flight) (f : Flight) → find_flight i fs ≡ some f → f.id ≡ i
unfolding find_flight
id_of_found i [] f h = cc
id_of_found i (g ∷ fs) f h = ground (arith, id_of_found i fs f)

pub find_flight-put_flight :
    (i : ℕ) (g f : Flight) (fs : List Flight)
    → find_flight i fs ≡ some f
    → g.id ≡ i
    → find_flight i (put_flight g fs) ≡ some g
unfolding find_flight put_flight
find_flight-put_flight i g f [] h e = cc
find_flight-put_flight i g f (x ∷ fs) h e = elim (Bool-cases (x.id == g.id)) [
  | inl t ↦ rw t (rw ((==_iff g.id i).1 e))
  | inr t ↦ rw t (ground (arith, find_flight-put_flight i g f fs))
]

module _ {M E : Type 0} where
  -- A callback whose request waits for it runs.
  pub fires :
      (o : Option Flight) (f : Flight) (b : Flight → Bool) (k : Flight → Client M E)
      → o ≡ some f
      → b f ≡ true
      → on_flight o (λ g. when (b g) (k g)) ≡ some (k f)
  unfolding on_flight when
  fires o f b k h e = rw (h, on_flight) (rw e)

module _ {M E : Type 0} (options : HttpStreamClientOptions) (f : Flight) (c : Client M E) where
  flights-on_timeout :
      (on_timeout options f c).flights ≡ put_flight (record f { armed = false }) c.flights
  unfolding on_timeout
  flights-on_timeout = ground arith

  reconnects-on_timeout :
      options.auto_reconnect ≡ true → (on_timeout options f c).reconnects ≡ c.reconnects + 1
  unfolding on_timeout
  reconnects-on_timeout h = ground arith

  log-on_timeout : (on_timeout options f c).log ≡ timed_out ∷ status error ∷ c.log
  unfolding on_timeout
  log-on_timeout = ground arith

  pub reconnects-on_reject :
      (x : E) (ok : Bool)
      → options.auto_reconnect ≡ true
      → (on_reject options f x ok c).reconnects ≡ c.reconnects + 1
  unfolding on_reject
  reconnects-on_reject x ok h = ground arith

  log-on_reject :
      (x : E) (ok : Bool) → (on_reject options f x ok c).log ≡ failed x ∷ status error ∷ c.log
  unfolding on_reject
  log-on_reject x ok = ground arith

module _ {M E : Type 0} (options : HttpStreamClientOptions) (parse : Str → Option M) where
  step-timeout :
      (c : Client M E) (i : ℕ) (f : Flight)
      → find_flight i c.flights ≡ some f
      → f.armed ≡ true
      → step options parse c (timeout i) ≡ some (on_timeout options f c)
  unfolding step
  step-timeout c i f h a =
      fires (find_flight i c.flights) f (λ g. g.armed) (λ g. on_timeout options g c) h a

  pub step-reject :
      (c : Client M E) (i : ℕ) (f : Flight) (x : E) (ok : Bool)
      → find_flight i c.flights ≡ some f
      → is_settled f.phase ≡ false
      → step options parse c (reject i x ok) ≡ some (on_reject options f x ok c)
  unfolding step
  step-reject c i f x ok h s =
      fires (find_flight i c.flights) f (λ g. not (is_settled g.phase))
        (λ g. on_reject options g x ok c) h (ap not s)

  run_two :
      (c d e : Client M E) (x y : Event E)
      → step options parse c x ≡ some d
      → step options parse d y ≡ some e
      → run options parse c (x ∷ y ∷ []) ≡ some e
  unfolding run run_from
  run_two c d e x y p q =
      ap (λ o. run_from options parse o (y ∷ [])) p ∙ ap (λ o. run_from options parse o []) q

  -- With `autoReconnect` on, a request whose timeout runs, and whose fetch is then rejected by the
  -- abort, starts two reconnect timers, and tells of four things: an error status and the timeout, then
  -- an error status and the rejection.
  pub timeout_reconnects_twice :
      (c : Client M E) (i : ℕ) (f : Flight) (x : E) (ok : Bool)
      → options.auto_reconnect ≡ true
      → find_flight i c.flights ≡ some f
      → f.armed ≡ true
      → f.phase ≡ waiting
      → (c' : Client M E) × (run options parse c (timeout i ∷ reject i x ok ∷ []) ≡ some c')
        × (c'.reconnects ≡ c.reconnects + 2)
        × (c'.log ≡ failed x ∷ status error ∷ timed_out ∷ status error ∷ c.log)
  timeout_reconnects_twice c i f x ok auto found armed phase = (
    on_reject options (record f { armed = false }) x ok (on_timeout options f c),
    run_two c (on_timeout options f c) _ (timeout i) (reject i x ok)
        (step-timeout c i f found armed)
        (step-reject (on_timeout options f c) i (record f { armed = false }) x ok later
          (ap is_settled phase)),
    omega (
      arith,
      reconnects-on_reject options (record f { armed = false }) (on_timeout options f c) x ok auto,
      reconnects-on_timeout options f c auto,
    ),
    log-on_reject options (record f { armed = false }) (on_timeout options f c) x ok
        ∙ ap (λ (l : List (Output M E)). failed x ∷ status error ∷ l) (log-on_timeout options f c),
  )
    where
      later : find_flight i (on_timeout options f c).flights ≡ some (record f { armed = false })
      later =
          ap (find_flight i) (flights-on_timeout options f c)
          ∙ find_flight-put_flight i (record f { armed = false }) f c.flights found
              (id_of_found i c.flights f found)
