-- ===== src/HttpStream/Told.antt =====
-- What an event makes the client of src/frontend/src/services/http-stream.ts tell its owner.
use Prim.Native.Nat.{zero, suc}
use swarm_engine.Prelude.{
  ℕ, ◌≡◌, refl, ap, subst, ◌∙◌, inl, inr, Bool, not, Option, none, some, List, [], ◌∷◌, ◌++◌, arith,
  Bool-cases, Option-cases, some_inj,
}
use swarm_engine.Text.{Str}
use swarm_engine.LineBuffer.{feed}
use swarm_engine.StreamClient.{
  HttpStreamClientOptions, HttpStreamClientSendOptions, HttpStreamClientStatus, Output, status,
  message, timed_out, failed, Client, Event, send, abort, reconnect, timeout, response, chunk, done,
  reject, finish, Flight, find_flight, connecting, connected, disconnected, error, Response,
  is_waiting, is_reading, is_settled, is_ndjson,
}
use swarm_engine.HttpStream.{
  step, on_status_change, do_send, reconnect_from, do_abort, on_timeout, on_response, on_chunk,
  on_done, on_reject, on_finish,
}
use swarm_engine.HttpStream.Accounting.{on_flight-elim}
use swarm_engine.HttpStream.Messages.{deliver, log-on_chunk}

module _ {M E : Type 0} where
  -- What is not a status.
  abbrev pub speech : List (Output M E) → List (Output M E)
  speech [] = []
  speech (status s ∷ l) = speech l
  speech (o ∷ l) = o ∷ speech l

  -- The log grew by some outputs, with this speech.
  pub record Speaks (old : List (Output M E)) (said new : List (Output M E)) : Type 0 where
    pub outputs : List (Output M E)
    pub added : new ≡ outputs ++ old
    pub sound : speech outputs ≡ said

  abbrev pub lines_said : (Str → Option M) → Str → Option Flight → List (Output M E)
  lines_said parse t none = []
  lines_said parse t (some f) = deliver parse (feed f.buffer t).0 []

  -- What an event makes the client say: the messages of the complete lines of a chunk, or a failure.
  abbrev pub speech_of : (Str → Option M) → List Flight → Event E → List (Output M E)
  speech_of parse fs (chunk i t) = lines_said parse t (find_flight i fs)
  speech_of parse fs (timeout i) = timed_out ∷ []
  speech_of parse fs (reject i x ok) = failed x ∷ []
  speech_of parse fs _ = []

  deliver-from :
      (parse : Str → Option M) (ls : List Str) (xs ys : List (Output M E))
      → deliver parse ls (xs ++ ys) ≡ deliver parse ls xs ++ ys
  deliver-from parse [] xs ys = refl
  deliver-from parse (l ∷ ls) xs ys = elim (Option-cases (parse l)) [
    | inl e ↦ rw e (deliver-from parse ls xs ys)
    | inr (m, e) ↦ rw e (deliver-from parse ls (message m ∷ xs) ys)
  ]

  speech-deliver :
      (parse : Str → Option M) (ls : List Str) (xs : List (Output M E))
      → speech xs ≡ xs
      → speech (deliver parse ls xs) ≡ deliver parse ls xs
  speech-deliver parse [] xs h = h
  speech-deliver parse (l ∷ ls) xs h = elim (Option-cases (parse l)) [
    | inl e ↦ rw e (speech-deliver parse ls xs h)
    | inr (m, e) ↦ rw e (speech-deliver parse ls (message m ∷ xs) (ap (message m ∷◌) h))
  ]

module _ {M E : Type 0} (options : HttpStreamClientOptions) where
  told_status :
      (s : HttpStreamClientStatus) (c : Client M E)
      → (on_status_change options s c).log ≡ status s ∷ c.log
  unfolding on_status_change
  told_status s c = ground arith

  send-Speaks :
      (o : Option HttpStreamClientSendOptions) (c : Client M E)
      → Speaks c.log [] (do_send options o c).log
  unfolding do_send
  send-Speaks o c = record { outputs = status connecting ∷ []; added = ground arith; sound = refl }

  reconnect-Speaks :
      (n : ℕ) (c : Client M E) {c' : Client M E}
      → reconnect_from options c n ≡ some c'
      → Speaks c.log [] c'.log
  unfolding reconnect_from
  reconnect-Speaks zero c h = cc
  reconnect-Speaks (suc n) c h =
      subst (λ d. Speaks c.log [] d.log) (some_inj h)
        (send-Speaks c.previous_send_options (record c { reconnects = n }))

  abort-Speaks : (c : Client M E) → Speaks c.log [] (do_abort options c).log
  unfolding do_abort
  abort-Speaks c = record { outputs = status disconnected ∷ []; added = ground arith; sound = refl }

  timeout-Speaks :
      (f : Flight) (c : Client M E) → Speaks c.log (timed_out ∷ []) (on_timeout options f c).log
  unfolding on_timeout
  timeout-Speaks f c = record {
    outputs = timed_out ∷ status error ∷ [];
    added = ground arith;
    sound = refl;
  }

  response-Speaks :
      (f : Flight) (r : Response) (c : Client M E) → Speaks c.log [] (on_response options f r c).log
  unfolding on_response
  response-Speaks f r c = elim (Bool-cases (is_ndjson r)) [
    | inl e ↦ elim (Bool-cases r.has_body) [
      | inl k ↦ record { outputs = status connected ∷ []; added = ground arith; sound = refl }
      | inr k ↦ record { outputs = status error ∷ []; added = ground arith; sound = refl }
    ]
    | inr e ↦ record { outputs = status error ∷ []; added = ground arith; sound = refl }
  ]

  done-Speaks :
      (f : Flight) (ok : Bool) (c : Client M E) → Speaks c.log [] (on_done options f ok c).log
  unfolding on_done
  done-Speaks f ok c = record {
    outputs = status disconnected ∷ [];
    added = ground arith;
    sound = refl;
  }

  reject-Speaks :
      (f : Flight) (x : E) (ok : Bool) (c : Client M E)
      → Speaks c.log (failed x ∷ []) (on_reject options f x ok c).log
  unfolding on_reject
  reject-Speaks f x ok c = record {
    outputs = failed x ∷ status error ∷ [];
    added = ground arith;
    sound = refl;
  }

  finish-Speaks : (f : Flight) (ok : Bool) (c : Client M E) → Speaks c.log [] (on_finish f ok c).log
  unfolding on_finish
  finish-Speaks f ok c = record { outputs = []; added = ground arith; sound = refl }

  module _ (parse : Str → Option M) where
    chunk-Speaks :
        (f : Flight) (t : Str) (c : Client M E)
        → Speaks c.log (deliver parse (feed f.buffer t).0 []) (on_chunk parse f t c).log
    chunk-Speaks f t c =
        let ls = (feed f.buffer t).0 in
        record {
          outputs = deliver parse ls [];
          added = log-on_chunk parse c f t ∙ deliver-from parse ls [] c.log;
          sound = speech-deliver parse ls [] refl;
        }

    -- Besides statuses, an event makes the client tell its owner the messages of the complete lines of a chunk,
    -- or a failure, and nothing else.
    pub step-Speaks :
        (c : Client M E) (e : Event E) {c' : Client M E}
        → step options parse c e ≡ some c'
        → Speaks c.log (speech_of parse c.flights e) c'.log
    unfolding step
    step-Speaks c (send o) h = subst (λ d. Speaks c.log [] d.log) (some_inj h) (send-Speaks o c)
    step-Speaks c abort h = subst (λ d. Speaks c.log [] d.log) (some_inj h) (abort-Speaks c)
    step-Speaks c reconnect h = reconnect-Speaks c.reconnects c h
    step-Speaks c (timeout i) h =
        on_flight-elim options parse (λ d. Speaks c.log (timed_out ∷ []) d.log)
          (find_flight i c.flights) (λ f. f.armed) (λ f. on_timeout options f c) h
          (λ f _ _. timeout-Speaks f c)
    step-Speaks c (response i r) h =
        on_flight-elim options parse (λ d. Speaks c.log [] d.log) (find_flight i c.flights)
          (λ f. is_waiting f.phase) (λ f. on_response options f r c) h
          (λ f _ _. response-Speaks f r c)
    step-Speaks c (chunk i t) h =
        on_flight-elim options parse
          (λ d. Speaks c.log (speech_of {E = E} parse c.flights (chunk i t)) d.log)
          (find_flight i c.flights) (λ f. is_reading f.phase) (λ f. on_chunk parse f t c) h
          (λ f e _. rw e (chunk-Speaks f t c))
    step-Speaks c (done i ok) h =
        on_flight-elim options parse (λ d. Speaks c.log [] d.log) (find_flight i c.flights)
          (λ f. is_reading f.phase) (λ f. on_done options f ok c) h (λ f _ _. done-Speaks f ok c)
    step-Speaks c (reject i x ok) h =
        on_flight-elim options parse (λ d. Speaks c.log (failed x ∷ []) d.log)
          (find_flight i c.flights) (λ f. not (is_settled f.phase))
          (λ f. on_reject options f x ok c) h (λ f _ _. reject-Speaks f x ok c)
    step-Speaks c (finish i ok) h =
        on_flight-elim options parse (λ d. Speaks c.log [] d.log) (find_flight i c.flights)
          (λ f. is_settled f.phase) (λ f. on_finish f ok c) h (λ f _ _. finish-Speaks f ok c)
