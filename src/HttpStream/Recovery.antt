-- ===== src/HttpStream/Recovery.antt =====
-- How the client of src/frontend/src/services/http-stream.ts comes back after its requests have failed.
use Prim.Native.Nat.{suc, ◌<◌}
use swarm_engine.Prelude.{
  ℕ, ◌+◌, ◌-◌, ◌≡◌, refl, ap, subst, ◌∙◌, true, Option, some, [], ◌∷◌, ◌++◌, arith, ltb,
}
use swarm_engine.Text.{Str}
use swarm_engine.StreamClient.{
  HttpStreamClientOptions, HttpStreamClientSendOptions, Client, reconnect, request,
  options_or_empty, timeout_ms, Flight, waiting, connecting,
}
use swarm_engine.HttpStream.{on_status_change, do_send, reconnect_from, step, run_from, run}
use swarm_engine.HttpStream.FailAll.{fail_all, unsettled, fail_all_settles}

-- The request that `send` begins.
abbrev sent_flight : HttpStreamClientOptions → Option HttpStreamClientSendOptions → ℕ → Flight
sent_flight options o i = record {
  id = i;
  sent = request options (options_or_empty o);
  armed = ltb 0 (timeout_ms (options_or_empty o).payload);
  phase = waiting;
  buffer = [];
}

-- One request is in flight: the last one again, waiting for its response.
pub record Resent {M E : Type 0} (options : HttpStreamClientOptions)
    (sent : Option HttpStreamClientSendOptions) (n : ℕ) (d : Client M E) : Type 0 where
  flight : Flight
  alone : d.flights ≡ flight ∷ []
  waits : flight.phase ≡ waiting
  same_request : flight.sent ≡ request options (options_or_empty sent)
  pending : d.reconnects ≡ n

module _ {M E : Type 0} (options : HttpStreamClientOptions) where
  flights-connecting :
      (c : Client M E) → (on_status_change options connecting c).flights ≡ c.flights
  unfolding on_status_change
  flights-connecting c = ground arith

  reconnects-connecting :
      (c : Client M E) → (on_status_change options connecting c).reconnects ≡ c.reconnects
  unfolding on_status_change
  reconnects-connecting c = ground arith

  do_send-Resent :
      (o : Option HttpStreamClientSendOptions) (c : Client M E)
      → c.flights ≡ []
      → Resent options o c.reconnects (do_send options o c)
  unfolding do_send
  do_send-Resent o c h =
      let b = record c { previous_send_options = o } in
      let f = sent_flight options o (on_status_change options connecting b).next_id in
      record {
        flight = f;
        alone = ap (f ∷◌) (flights-connecting b ∙ h);
        waits = refl;
        same_request = refl;
        pending = reconnects-connecting b;
      }

  module _ (parse : Str → Option M) where
    resend :
        (c : Client M E) (n : ℕ)
        → c.flights ≡ []
        → c.reconnects ≡ suc n
        → (d : Client M E) × (run options parse c (reconnect ∷ []) ≡ some d)
          × Resent options c.previous_send_options n d
    unfolding run run_from step reconnect_from
    resend c n h r = (
      do_send options c.previous_send_options (record c { reconnects = n }),
      ap (λ k. run_from options parse (reconnect_from options c k) []) r,
      do_send-Resent c.previous_send_options (record c { reconnects = n }) h,
    )

    -- With `autoReconnect` on, a client that has a request which has not settled, or a pending
    -- reconnect, comes back without its owner: once all its requests have failed and are over, the
    -- timer of a reconnect leaves it with one request in flight, the one of the last call of `send`
    -- again, which waits for its response. As many reconnects are pending then as were before, and one
    -- for each request that failed, but for the one whose timer ran.
    pub recovers :
        (x : E) (c : Client M E)
        → options.auto_reconnect ≡ true
        → 0 < c.reconnects + unsettled c.flights
        → (d : Client M E) × (run options parse c (fail_all x c.flights ++ reconnect ∷ []) ≡ some d)
          × Resent options c.previous_send_options (c.reconnects + unsettled c.flights - 1) d
    recovers x c auto h =
        let n = c.reconnects + unsettled c.flights - 1 in
        let (b, e, k) = fail_all_settles options parse x c.flights c (reconnect ∷ []) auto refl in
        let (d, r, q) = resend b n k.flights_left (omega (arith, h, k.reconnects_added)) in
        (d, e ∙ r, subst (λ o. Resent options o n d) k.previous_kept q)
