-- ===== src/HttpStream/Session/Phases.antt =====
-- The phases of the requests in flight in src/frontend/src/services/http-stream.ts, when one of the
-- requests is replaced or dropped.
use swarm_engine.Prelude.{
  ℕ, ◌≡◌, refl, sym, ap, subst, ◌∙◌, inl, inr, true, false, not, some, List, [], ◌∷◌, ◌==◌,
  Bool-cases, some_inj,
}
use swarm_engine.StreamClient.{
  Flight, Phase, waiting, reading, settled, is_waiting, is_reading, is_settled, find_flight,
  put_flight, drop_flight,
}
use swarm_engine.HttpStream.Session.{Moves, Leaves, this, later, phases_of}

pub put_flight-Moves :
    (g f : Flight) (fs : List Flight)
    → find_flight g.id fs ≡ some f
    → Moves f.phase g.phase (phases_of fs) (phases_of (put_flight g fs))
unfolding find_flight put_flight
put_flight-Moves g f [] h = cc
put_flight-Moves g f (x ∷ fs) h = elim (Bool-cases (x.id == g.id)) [
  | inl t ↦ rw t (
      subst
        (λ (y : Flight). Moves y.phase g.phase (x.phase ∷ phases_of fs) (g.phase ∷ phases_of fs))
        (some_inj (rw t at h)) this)
  | inr t ↦ rw t (later (put_flight-Moves g f fs (rw t at h)))
]

-- A flight that keeps its phase leaves all phases as they are.
pub put_flight-phases :
    (g f : Flight) (fs : List Flight)
    → find_flight g.id fs ≡ some f
    → g.phase ≡ f.phase
    → phases_of (put_flight g fs) ≡ phases_of fs
unfolding find_flight put_flight
put_flight-phases g f [] h e = cc
put_flight-phases g f (x ∷ fs) h e = elim (Bool-cases (x.id == g.id)) [
  | inl t ↦
      rw t
        (ap (λ p. p ∷ phases_of fs) (e ∙ ap (λ (y : Flight). y.phase) (sym (some_inj (rw t at h)))))
  | inr t ↦ rw t (ap (x.phase ∷◌) (put_flight-phases g f fs (rw t at h) e))
]

pub drop_flight-Leaves :
    (i : ℕ) (f : Flight) (fs : List Flight)
    → find_flight i fs ≡ some f
    → f.phase ≡ settled
    → Leaves (phases_of fs) (phases_of (drop_flight i fs))
unfolding find_flight drop_flight
drop_flight-Leaves i f [] h e = cc
drop_flight-Leaves i f (x ∷ fs) h e = elim (Bool-cases (x.id == i)) [
  | inl t ↦ rw t (
      subst (λ p. Leaves (p ∷ phases_of fs) (phases_of fs))
        (sym (ap (λ (y : Flight). y.phase) (some_inj (rw t at h)) ∙ e)) this)
  | inr t ↦ rw t (later (drop_flight-Leaves i f fs (rw t at h) e))
]

pub waits : (p : Phase) → is_waiting p ≡ true → p ≡ waiting
waits waiting h = refl
waits _ h = cc

pub reads : (p : Phase) → is_reading p ≡ true → p ≡ reading
reads reading h = refl
reads _ h = cc

pub settles : (p : Phase) → is_settled p ≡ true → p ≡ settled
settles settled h = refl
settles _ h = cc

pub unsettled : (p : Phase) → not (is_settled p) ≡ true → is_settled p ≡ false
unsettled settled h = cc
unsettled _ h = refl
