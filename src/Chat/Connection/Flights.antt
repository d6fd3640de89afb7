-- ===== src/Chat/Connection/Flights.antt =====
-- The callbacks of the requests of src/frontend/src/services/chat.tsx.
use swarm_engine.Prelude.{
  ◌≡◌, refl, subst, Bool, true, false, Option, none, some, if◌then◌else◌, some_inj,
}
use swarm_engine.Chat.Provider.{ChatFlight, ChatState}
use swarm_engine.Chat.Connection.{on_flight}

-- A callback that has run, ran for a request in flight.
pub on_flight-elim :
    (P : ChatState → Type 0) (o : Option ChatFlight) (test : ChatFlight → Bool)
    (k : ChatFlight → ChatState) (u : ChatState)
    → on_flight o test k ≡ some u
    → ((f : ChatFlight) → o ≡ some f → P (k f))
    → P u
unfolding on_flight
on_flight-elim P none test k u e h = cc
on_flight-elim P (some f) test k u e h = go (test f) e
  where
    go : (b : Bool) → (if b then some (k f) else none) ≡ some u → P u
    go true e = subst P (some_inj e) (h f refl)
    go false e = absurd (cc e)
