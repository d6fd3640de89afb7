-- ===== src/HttpStream/Session/Runs.antt =====
-- Runs of the client of src/frontend/src/services/http-stream.ts as sessions.
use swarm_engine.Prelude.{
  ◌≡◌, subst, inl, inr, Option, none, some, List, [], ◌∷◌, Option-cases, some_inj,
}
use swarm_engine.Text.{Str}
use swarm_engine.StreamClient.{HttpStreamClientOptions, Client, Event}
use swarm_engine.HttpStream.{step, run, run_from, new_client}
use swarm_engine.HttpStream.Session.{Session, Sessions, start, and_next, no_session, view}
use swarm_engine.HttpStream.Session.Steps.{step-Follows}

module _ {M E : Type 0} (options : HttpStreamClientOptions) (parse : Str → Option M) where
  run_from-Sessions :
      (es : List (Event E)) (c : Client M E) {c' : Client M E} {v : Session}
      → run_from options parse (some c) es ≡ some c'
      → Sessions options.auto_reconnect v (view c)
      → Sessions options.auto_reconnect v (view c')
  unfolding run_from
  run_from-Sessions [] c {c'} {v} h r =
      subst (λ d. Sessions options.auto_reconnect v (view d)) (some_inj h) r
  run_from-Sessions (e ∷ es) c {c'} {v} h r = elim (Option-cases (step options parse c e)) [
    | inl k ↦ absurd (stuck es (subst (λ o. run_from options parse o es ≡ some c') k h))
    | inr (d, k) ↦
        run_from-Sessions es d (subst (λ o. run_from options parse o es ≡ some c') k h)
          (and_next r (step-Follows options parse c e k))
  ]
    where
      stuck : (es : List (Event E)) → run_from options parse none es ≡ some c' → ⊥
      stuck [] h = cc
      stuck (y ∷ es) h = cc

  -- After any events, what the owner sees of a client that was new is what changes of `Follows` make of
  -- the empty session. There a request begins as waiting, goes to reading only with the status
  -- `connected`, settles only from a phase before that, with `disconnected` at the end of a body and
  -- `error` otherwise, and goes away only when it is settled; besides, the owner is told of timeouts and
  -- of its aborts; each failure that is told starts a reconnect if `autoReconnect` is on, and none if not.
  pub run-Sessions :
      (es : List (Event E)) {c : Client M E}
      → run options parse new_client es ≡ some c
      → Sessions options.auto_reconnect no_session (view c)
  unfolding run
  run-Sessions es h = run_from-Sessions es new_client h start
