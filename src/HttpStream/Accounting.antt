-- ===== src/HttpStream/Accounting.antt =====
-- How many requests the client of src/frontend/src/services/http-stream.ts sends.
use Prim.Native.Nat.{zero, suc}
use swarm_engine.Prelude.{
  ℕ, ◌+◌, ◌≡◌, refl, subst, inl, inr, Bool, true, not, Option, none, some, List, [], ◌∷◌, arith,
  if◌then◌else◌, Bool-cases, Option-cases, some_inj,
}
use swarm_engine.Text.{Str}
use swarm_engine.LineBuffer.{feed}
use swarm_engine.StreamClient.{
  connecting, disconnected, error, HttpStreamClientOptions, HttpStreamClientSendOptions, Output,
  status, Client, Event, send, abort, reconnect, timeout, response, chunk, done, reject, finish,
  Flight, Response, is_waiting, is_reading, is_settled, find_flight, is_ndjson,
}
use swarm_engine.HttpStream.{
  reconnect_from, run_from, do_send, on_timeout, on_response, on_line, on_lines, on_chunk, on_done,
  on_reject, on_finish, do_abort, when, on_flight, step, run, new_client,
}

module _ {M E : Type 0} where
  -- How many requests the log shows: each begins with `connecting`.
  abbrev pub connectings : List (Output M E) → ℕ
  connectings [] = 0
  connectings (status connecting ∷ l) = suc (connectings l)
  connectings (_ ∷ l) = connectings l

  -- How many failures the log shows.
  abbrev pub failures : List (Output M E) → ℕ
  failures [] = 0
  failures (status disconnected ∷ l) = suc (failures l)
  failures (status error ∷ l) = suc (failures l)
  failures (_ ∷ l) = failures l

-- How many of the events are calls of `send` by the owner, added to a number.
abbrev count_send : {E : Type 0} → Event E → ℕ → ℕ
count_send (send _) n = suc n
count_send _ n = n

abbrev pub sends : {E : Type 0} → List (Event E) → ℕ → ℕ
sends [] n = n
sends (e ∷ es) n = sends es (count_send e n)

module _ {M E : Type 0} (options : HttpStreamClientOptions) (parse : Str → Option M) where
  -- The failures that lead to a reconnect.
  abbrev retried : List (Output M E) → ℕ
  retried l = if options.auto_reconnect then failures l else 0

  -- `n` calls of `send` by the owner, and the reconnects that ran or will run, account for everything.
  abbrev Balanced : ℕ → Client M E → Type 0
  Balanced n c = connectings c.log + c.reconnects ≡ n + retried c.log

  line-Balanced : (n : ℕ) (l : Str) (c : Client M E) → Balanced n c → Balanced n (on_line parse l c)
  unfolding on_line
  line-Balanced n l c h = ground arith

  lines-Balanced :
      (n : ℕ) (ls : List Str) (c : Client M E) → Balanced n c → Balanced n (on_lines parse ls c)
  unfolding on_lines
  lines-Balanced n [] c h = h
  lines-Balanced n (l ∷ ls) c h = lines-Balanced n ls (on_line parse l c) (line-Balanced n l c h)

  send-Balanced :
      (n : ℕ) (o : Option HttpStreamClientSendOptions) (c : Client M E)
      → Balanced n c
      → Balanced (suc n) (do_send options o c)
  unfolding do_send
  send-Balanced n o c h = ground arith

  abort-Balanced : (n : ℕ) (c : Client M E) → Balanced n c → Balanced n (do_abort options c)
  unfolding do_abort
  abort-Balanced n c h = ground arith

  timeout-Balanced :
      (n : ℕ) (f : Flight) (c : Client M E) → Balanced n c → Balanced n (on_timeout options f c)
  unfolding on_timeout
  timeout-Balanced n f c h = ground arith

  response-Balanced :
      (n : ℕ) (f : Flight) (r : Response) (c : Client M E)
      → Balanced n c
      → Balanced n (on_response options f r c)
  unfolding on_response
  response-Balanced n f r c h = elim (Bool-cases (is_ndjson r)) [
    | inl e ↦ ground arith
    | inr e ↦ ground arith
  ]

  chunk-Balanced :
      (n : ℕ) (f : Flight) (t : Str) (c : Client M E)
      → Balanced n c
      → Balanced n (on_chunk parse f t c)
  unfolding on_chunk
  chunk-Balanced n f t c h = lines-Balanced n (feed f.buffer t).0 c h

  done-Balanced :
      (n : ℕ) (f : Flight) (ok : Bool) (c : Client M E)
      → Balanced n c
      → Balanced n (on_done options f ok c)
  unfolding on_done
  done-Balanced n f ok c h = ground arith

  reject-Balanced :
      (n : ℕ) (f : Flight) (e : E) (ok : Bool) (c : Client M E)
      → Balanced n c
      → Balanced n (on_reject options f e ok c)
  unfolding on_reject
  reject-Balanced n f e ok c h = ground arith

  finish-Balanced :
      (n : ℕ) (f : Flight) (ok : Bool) (c : Client M E)
      → Balanced n c
      → Balanced n (on_finish f ok c)
  unfolding on_finish
  finish-Balanced n f ok c h = ground arith

  -- A guarded callback that runs gives its result.
  pub on_flight-elim :
      (P : Client M E → Type 0) (o : Option Flight) (b : Flight → Bool) (k : Flight → Client M E)
      {c : Client M E}
      → on_flight o (λ f. when (b f) (k f)) ≡ some c
      → ((f : Flight) → o ≡ some f → b f ≡ true → P (k f))
      → P c
  unfolding on_flight when
  on_flight-elim P none b k e h = cc
  on_flight-elim P (some f) b k {c} e h = elim (Bool-cases (b f)) [
    | inl t ↦ subst P (some_inj (rw t at e)) (h f refl t)
    | inr t ↦ absurd (go (rw t at e))
  ]
    where
      go : none ≡ some c → ⊥
      go e = cc

  reconnect-Balanced :
      (n k : ℕ) (c : Client M E)
      → Balanced n c
      → c.reconnects ≡ suc k
      → Balanced n (do_send options c.previous_send_options (record c { reconnects = k }))
  unfolding do_send
  reconnect-Balanced n k c h e = ground arith

  step_reconnect-Balanced :
      (n k : ℕ) (c : Client M E) {c' : Client M E}
      → Balanced n c
      → c.reconnects ≡ k
      → reconnect_from options c k ≡ some c'
      → Balanced n c'
  unfolding reconnect_from
  step_reconnect-Balanced n zero c h k e = cc
  step_reconnect-Balanced n (suc k) c h r e =
      subst (Balanced n) (some_inj e) (reconnect-Balanced n k c h r)

  -- Each event keeps the balance.
  step-Balanced :
      (n : ℕ) (e : Event E) (c : Client M E) {c' : Client M E}
      → step options parse c e ≡ some c'
      → Balanced n c
      → Balanced (count_send e n) c'
  unfolding step
  step-Balanced n (send o) c e h = subst (Balanced (suc n)) (some_inj e) (send-Balanced n o c h)
  step-Balanced n abort c e h = subst (Balanced n) (some_inj e) (abort-Balanced n c h)
  step-Balanced n reconnect c e h = step_reconnect-Balanced n c.reconnects c h refl e
  step-Balanced n (timeout i) c e h =
      on_flight-elim (Balanced n) (find_flight i c.flights) (λ f. f.armed)
        (λ f. on_timeout options f c) e (λ f _ _. timeout-Balanced n f c h)
  step-Balanced n (response i r) c e h =
      on_flight-elim (Balanced n) (find_flight i c.flights) (λ f. is_waiting f.phase)
        (λ f. on_response options f r c) e (λ f _ _. response-Balanced n f r c h)
  step-Balanced n (chunk i t) c e h =
      on_flight-elim (Balanced n) (find_flight i c.flights) (λ f. is_reading f.phase)
        (λ f. on_chunk parse f t c) e (λ f _ _. chunk-Balanced n f t c h)
  step-Balanced n (done i ok) c e h =
      on_flight-elim (Balanced n) (find_flight i c.flights) (λ f. is_reading f.phase)
        (λ f. on_done options f ok c) e (λ f _ _. done-Balanced n f ok c h)
  step-Balanced n (reject i x ok) c e h =
      on_flight-elim (Balanced n) (find_flight i c.flights) (λ f. not (is_settled f.phase))
        (λ f. on_reject options f x ok c) e (λ f _ _. reject-Balanced n f x ok c h)
  step-Balanced n (finish i ok) c e h =
      on_flight-elim (Balanced n) (find_flight i c.flights) (λ f. is_settled f.phase)
        (λ f. on_finish f ok c) e (λ f _ _. finish-Balanced n f ok c h)

  run_from-Balanced :
      (n : ℕ) (es : List (Event E)) (c : Client M E) {c' : Client M E}
      → run_from options parse (some c) es ≡ some c'
      → Balanced n c
      → Balanced (sends es n) c'
  unfolding run_from
  run_from-Balanced n [] c e h = subst (Balanced n) (some_inj e) h
  run_from-Balanced n (x ∷ es) c {c'} e h = elim (Option-cases (step options parse c x)) [
    | inl k ↦ absurd (stuck es (subst (λ o. run_from options parse o es ≡ some c') k e))
    | inr (d, k) ↦
        run_from-Balanced (count_send x n) es d
          (subst (λ o. run_from options parse o es ≡ some c') k e) (step-Balanced n x c k h)
  ]
    where
      stuck : (es : List (Event E)) → run_from options parse none es ≡ some c' → ⊥
      stuck [] e = cc
      stuck (y ∷ es) e = cc

  -- In every run of a new client, the requests that began and the reconnects that are pending are
  -- together the owner's calls of `send` and one for each failure, if `autoReconnect` is on; with it
  -- off, the owner's calls alone.
  pub connectings-add-reconnects :
      (es : List (Event E)) {c : Client M E}
      → run options parse new_client es ≡ some c
      → connectings c.log + c.reconnects
        ≡ sends es 0 + (if options.auto_reconnect then failures c.log else 0)
  unfolding run
  connectings-add-reconnects es e = run_from-Balanced 0 es new_client e start
    where
      start : Balanced 0 new_client
      start = ground arith
