-- ===== src/HttpStream/FailAll.antt =====
-- What is left of the client of src/frontend/src/services/http-stream.ts when all its requests fail.
use Prim.Native.Nat.{suc}
use swarm_engine.Prelude.{
  ℕ, ◌+◌, ◌≡◌, refl, ap, ◌∙◌, inl, inr, true, false, Option, some, List, [], ◌∷◌, ◌++◌, arith,
  if◌then◌else◌, ==_refl, Bool-cases,
}
use swarm_engine.Text.{Str}
use swarm_engine.StreamClient.{
  HttpStreamClientOptions, Client, Event, reject, finish, Flight, is_settled, find_flight,
  put_flight, drop_flight, settled,
}
use swarm_engine.HttpStream.{on_reject, on_finish, step, run_from, run}
use swarm_engine.HttpStream.Timeout.{fires, step-reject, reconnects-on_reject}

-- Each request fails, unless it has settled, and is over.
abbrev pub fail_all : {E : Type 0} → E → List Flight → List (Event E)
fail_all x [] = []
fail_all x (f ∷ fs) =
    if is_settled f.phase
    then finish f.id true ∷ fail_all x fs
    else reject f.id x true ∷ finish f.id true ∷ fail_all x fs

-- How many requests have not settled.
abbrev pub unsettled : List Flight → ℕ
unsettled [] = 0
unsettled (f ∷ fs) = if is_settled f.phase then unsettled fs else suc (unsettled fs)

abbrev failed_flight : Flight → Flight
failed_flight f = record f { armed = false; phase = settled }

find_first : (f : Flight) (fs : List Flight) → find_flight f.id (f ∷ fs) ≡ some f
unfolding find_flight
find_first f fs = rw (==_refl f.id) refl

put_first :
    (f : Flight) (fs : List Flight) → put_flight (failed_flight f) (f ∷ fs) ≡ failed_flight f ∷ fs
unfolding put_flight
put_first f fs = rw (==_refl f.id) refl

drop_first : (f : Flight) (fs : List Flight) → drop_flight f.id (f ∷ fs) ≡ fs
unfolding drop_flight
drop_first f fs = rw (==_refl f.id) refl

module _ {M E : Type 0} (options : HttpStreamClientOptions) where
  flights-on_reject :
      (f : Flight) (x : E) (c : Client M E)
      → (on_reject options f x true c).flights ≡ put_flight (failed_flight f) c.flights
  unfolding on_reject
  flights-on_reject f x c = ground arith

  previous-on_reject :
      (f : Flight) (x : E) (c : Client M E)
      → (on_reject options f x true c).previous_send_options ≡ c.previous_send_options
  unfolding on_reject
  previous-on_reject f x c = ground arith

  -- What is left of a client when its first request is over.
  pub record Settled (c : Client M E) (fs : List Flight) (n : ℕ) (d : Client M E) : Type 0 where
    pub flights_left : d.flights ≡ fs
    pub reconnects_added : d.reconnects ≡ c.reconnects + n
    pub previous_kept : d.previous_send_options ≡ c.previous_send_options

  joined :
      (c b d : Client M E) (fs : List Flight) (m n k : ℕ)
      → k ≡ m + n
      → Settled c fs m b
      → Settled b [] n d
      → Settled c [] k d
  joined c b d fs m n k e p q = record {
    flights_left = q.flights_left;
    reconnects_added = omega (arith, e, p.reconnects_added, q.reconnects_added);
    previous_kept = q.previous_kept ∙ p.previous_kept;
  }

  module _ (parse : Str → Option M) where
    step-finish :
        (c : Client M E) (f : Flight)
        → find_flight f.id c.flights ≡ some f
        → is_settled f.phase ≡ true
        → step options parse c (finish f.id true) ≡ some (on_finish f true c)
    unfolding step
    step-finish c f h s =
        fires (find_flight f.id c.flights) f (λ g. is_settled g.phase) (λ g. on_finish g true c) h s

    run-step :
        (c d : Client M E) (e : Event E) (es : List (Event E))
        → step options parse c e ≡ some d
        → run options parse c (e ∷ es) ≡ run options parse d es
    unfolding run run_from
    run-step c d e es h = ap (λ o. run_from options parse o es) h

    over :
        (c : Client M E) (f : Flight) (fs : List Flight)
        → c.flights ≡ f ∷ fs
        → Settled c fs 0 (on_finish f true c)
    unfolding on_finish
    over c f fs h = record {
      flights_left = ap (drop_flight f.id) h ∙ drop_first f fs;
      reconnects_added = omega arith;
      previous_kept = refl;
    }

    failed_over :
        (x : E) (c : Client M E) (f : Flight) (fs : List Flight)
        → options.auto_reconnect ≡ true
        → c.flights ≡ f ∷ fs
        → Settled c fs 1 (on_finish (failed_flight f) true (on_reject options f x true c))
    unfolding on_finish
    failed_over x c f fs auto h = record {
      flights_left =
          ap (drop_flight f.id)
            (flights-on_reject f x c ∙ ap (put_flight (failed_flight f)) h ∙ put_first f fs)
          ∙ drop_first (failed_flight f) fs;
      reconnects_added = reconnects-on_reject options f c x true auto;
      previous_kept = previous-on_reject f x c;
    }

    run-settled :
        (c : Client M E) (f : Flight) (fs : List Flight) (es : List (Event E))
        → c.flights ≡ f ∷ fs
        → is_settled f.phase ≡ true
        → run options parse c (finish f.id true ∷ es) ≡ run options parse (on_finish f true c) es
    run-settled c f fs es h s =
        run-step c (on_finish f true c) (finish f.id true) es
          (step-finish c f (ap (find_flight f.id) h ∙ find_first f fs) s)

    run-unsettled :
        (x : E) (c : Client M E) (f : Flight) (fs : List Flight) (es : List (Event E))
        → c.flights ≡ f ∷ fs
        → is_settled f.phase ≡ false
        → run options parse c (reject f.id x true ∷ finish f.id true ∷ es)
          ≡ run options parse (on_finish (failed_flight f) true (on_reject options f x true c)) es
    run-unsettled x c f fs es h s =
        run-step c (on_reject options f x true c) (reject f.id x true) (finish f.id true ∷ es)
          (step-reject options parse c f.id f x true (ap (find_flight f.id) h ∙ find_first f fs) s)
        ∙ run-settled (on_reject options f x true c) (failed_flight f) fs es
            (flights-on_reject f x c ∙ ap (put_flight (failed_flight f)) h ∙ put_first f fs) refl

    pub fail_all_settles :
        (x : E) (fs : List Flight) (c : Client M E) (es : List (Event E))
        → options.auto_reconnect ≡ true
        → c.flights ≡ fs
        → (d : Client M E) × (run options parse c (fail_all x fs ++ es) ≡ run options parse d es)
          × Settled c [] (unsettled fs) d
    fail_all_settles x [] c es auto h =
        (c, refl, record { flights_left = h; reconnects_added = omega arith; previous_kept = refl })
    fail_all_settles x (f ∷ fs) c es auto h = elim (Bool-cases (is_settled f.phase)) [
      | inl s ↦
          let b = on_finish f true c in
          let (d, e, k) = fail_all_settles x fs b es auto (over c f fs h).flights_left in
          rw s (
            d,
            run-settled c f fs (fail_all x fs ++ es) h s ∙ e,
            joined c b d fs 0 (unsettled fs) (unsettled fs) (omega arith) (over c f fs h) k,
          )
      | inr s ↦
          let b = on_finish (failed_flight f) true (on_reject options f x true c) in
          let (d, e, k) =
            fail_all_settles x fs b es auto (failed_over x c f fs auto h).flights_left in
          rw s (
            d,
            run-unsettled x c f fs (fail_all x fs ++ es) h s ∙ e,
            joined c b d fs 1 (unsettled fs) (suc (unsettled fs)) (omega arith)
                (failed_over x c f fs auto h) k,
          )
    ]
