-- ===== src/Components/Notification/Countdown.antt =====
-- The countdown of src/frontend/src/components/mui/alert/notification.tsx over its animation frames.
use native.Mathlib.Nat.{le-div_iff_mul-le, div-mul-le_self}
use Prim.Native.Nat.{zero, suc, ◌<◌, ◌≤◌}
use swarm_engine.Prelude.{
  ℕ, ◌+◌, ◌-◌, ◌*◌, ◌/◌, ◌≡◌, refl, sym, ap, subst, ◌∙◌, ◌↔◌, inl, inr, false, List, [], ◌∷◌, arith,
  ltb, Bool-cases, lt→ltb, ge→ltb, ltb→ge,
}
use swarm_engine.Components.Notification.{
  CountdownState, compensation, progress_of, start_countdown, started_at, on_frame, countdown_run,
}

-- The times of the frames do not go back.
abbrev IsAscending : ℕ → List ℕ → Type 0
IsAscending t [] = Unit
IsAscending t (u ∷ us) = (t ≤ u) × IsAscending u us

abbrev pub last_time : ℕ → List ℕ → ℕ
last_time t [] = t
last_time t (u ∷ us) = last_time u us

progress_of-le : (d x : ℕ) → progress_of d x ≤ 100
unfolding progress_of
progress_of-le d x = omega arith

div_mono : (d x y : ℕ) → 0 < d → x ≤ y → x / d ≤ y / d
div_mono d x y h k = (le-div_iff_mul-le h).1 (omega (arith, k, div-mul-le_self x d))

progress_of_mono : (d x y : ℕ) → 0 < d → x ≤ y → progress_of d x ≤ progress_of d y
unfolding progress_of
progress_of_mono d x y h k =
    omega (arith, div_mono d (100 * x + (d - 1)) (100 * y + (d - 1)) h (omega (arith, k)))

progress_of-full : (d x : ℕ) → 0 < d → (progress_of d x ≡ 100) ↔ (99 * d < 100 * x)
unfolding progress_of
progress_of-full d x h =
    let full = le-div_iff_mul-le {k = d} {x = 100} {y = 100 * x + (d - 1)} h in
    (
      λ e. omega (arith, h, full.0 (omega (arith, e))),
      λ k. omega (arith, full.1 (omega (arith, h, k))),
    )

-- The state of the bar when its first frame was at `t` and its last at `u`.
record IsAt (d t u : ℕ) (s : CountdownState) : Type 0 where
  started : s.start_time ≡ t
  reached : s.progress ≡ progress_of d (u - t + compensation)
  going : s.running ≡ ltb s.progress 100

first-IsAt : (d t : ℕ) → 0 < d → IsAt d t t (on_frame d t (start_countdown d))
unfolding on_frame
first-IsAt d t h =
    rw (lt→ltb 0 d h)
      (record { started = refl; reached = ap (progress_of d) (omega arith); going = refl })

started_lem : (t v : ℕ) → 0 < t → started_at t v ≡ t
started_lem zero v h = absurd (omega (arith, h))
started_lem (suc t) v h = refl

next-IsAt :
    (d t u v : ℕ) (s : CountdownState)
    → 0 < d
    → 0 < t
    → t ≤ u
    → u ≤ v
    → IsAt d t u s
    → IsAt d t v (on_frame d v s)
unfolding on_frame
next-IsAt d t u v s h k l m a = elim (Bool-cases s.running) [
  | inl e ↦
      let q = ap (λ x. started_at x v) a.started ∙ started_lem t v k in
      rw e (record {
        started = q;
        reached =
            ap (λ x. progress_of d (v + compensation - x)) q
            ∙ ap (progress_of d) (omega (arith, l, m));
        going = refl;
      })
  | inr e ↦ rw e (record {
    started = a.started;
    reached = omega (
      arith,
      ltb→ge s.progress 100 (sym a.going ∙ e),
      a.reached,
      progress_of-le d (v - t + compensation),
      progress_of_mono d (u - t + compensation) (v - t + compensation) h (omega (arith, m)),
    );
    going = sym e ∙ a.going;
  })
]

run-IsAt :
    (d t : ℕ) (us : List ℕ) (u : ℕ) (s : CountdownState)
    → 0 < d
    → 0 < t
    → t ≤ u
    → IsAscending u us
    → IsAt d t u s
    → IsAt d t (last_time u us) (countdown_run d us s)
unfolding countdown_run
run-IsAt d t [] u s h k l m a = a
run-IsAt d t (v ∷ vs) u s h k l (m, ms) a =
    run-IsAt d t vs v (on_frame d v s) h k (omega (arith, l, m)) ms (next-IsAt d t u v s h k l m a)

-- A bar with a duration whose frames come in order, the first of them not at the time 0, stands after
-- them where the time from the first to the last says, and never behind 100, also if it has stopped
-- before; and it has stopped just when more than 99 hundredths of the duration, less the compensation of
-- 150, have passed. So it fills up before the notification is hidden, and no frame is asked for then.
pub countdown_follows :
    (d t : ℕ) (ts : List ℕ)
    → 0 < d
    → 0 < t
    → IsAscending t ts
    → ((countdown_run d (t ∷ ts) (start_countdown d)).progress
        ≡ progress_of d (last_time t ts - t + compensation))
      × ((countdown_run d (t ∷ ts) (start_countdown d)).progress ≤ 100)
      × (((countdown_run d (t ∷ ts) (start_countdown d)).running ≡ false)
          ↔ (99 * d < 100 * (last_time t ts - t + compensation)))
unfolding countdown_run
countdown_follows d t ts h k l =
    let s = countdown_run d ts (on_frame d t (start_countdown d)) in
    let x = last_time t ts - t + compensation in
    let a =
      run-IsAt d t ts t (on_frame d t (start_countdown d)) h k (omega arith) l (first-IsAt d t h) in
    let full = progress_of-full d x h in
    (
      a.reached,
      subst (λ n. n ≤ 100) (sym a.reached) (progress_of-le d x),
      (
        λ e.
            full.0 (
              omega
                (arith, a.reached, progress_of-le d x, ltb→ge s.progress 100 (sym a.going ∙ e))),
        λ m. a.going ∙ ge→ltb s.progress 100 (omega (arith, a.reached, full.1 m)),
      ),
    )
