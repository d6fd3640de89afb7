-- ===== src/Examples/Chats.antt =====
-- The chat at concrete states, chunks and events.
use swarm_engine.Prelude.{◌≡◌, refl, ◌≢◌, ◌⊎◌, true, false, Option, none, some, List, [], ◌∷◌}
use swarm_engine.Text.{Str, codes}
use swarm_engine.Chat.{ChatMessage, ChatStatus, opened, Completion, ClusterView}
use swarm_engine.Chat.Provider.{
  is_busy, ChatFlight, ChatState, new_chat, user_message, generate, stop,
}
use swarm_engine.Chat.Connection.{
  ChatEvent, set_input, generate_of, step, here, next, reject, other,
}
use swarm_engine.Chat.Actions.{IsSent, generate_sends}
use swarm_engine.Chat.Busy.{busy_in_flight}
use swarm_engine.Chat.Connection.Stop.{chat_run, stop_stays}

abbrev a_completion : Str → Completion
a_completion t = record {
  id = codes "c1";
  created = 9;
  model = some (codes "llama");
  deltas = record { role = none; content = some t } ∷ [];
}

abbrev a_question : ChatMessage
a_question = user_message (codes "1") 1 (codes "hello")

abbrev two_chunks : List Completion
two_chunks = a_completion (codes "he") ∷ a_completion (codes "y") ∷ []

abbrev a_view : ClusterView
a_view = record { available = true; model_name = codes "llama" }

abbrev typed : ChatState
typed = record new_chat { input = codes " hi " }

abbrev asked : ChatState
asked = generate a_view none (codes "1") 1 typed

busy_in_flight_example : asked.flights ≢ []
unfolding step generate
busy_in_flight_example =
    busy_in_flight (λ t. none)
      (next (next here (set_input (codes " hi ")) refl) (generate_of a_view none (codes "1") 1)
        refl)
      refl

generate_sends_example : (asked ≡ typed) ⊎ IsSent a_view none (codes "1") 1 typed asked
generate_sends_example = generate_sends a_view none (codes "1") 1 typed

abbrev a_flight : ChatFlight
a_flight = record { id = 0; reading = false; buffer = [] }

abbrev waiting_chat : ChatState
waiting_chat = record new_chat {
  status = opened;
  messages = a_question ∷ [];
  abort_controller = some 0;
  flights = a_flight ∷ [];
  next_id = 1;
}

abbrev or_new : Option ChatState → ChatState
or_new none = new_chat
or_new (some s) = s

-- The fetch is rejected with the string that the stop has given.
abbrev late_events : List ChatEvent
late_events = set_input (codes "x") ∷ reject 0 other ∷ []

abbrev stopped : ChatState
stopped = or_new (chat_run (λ t. none) (stop waiting_chat) late_events)

stops : chat_run (λ t. none) (stop waiting_chat) late_events ≡ some stopped
unfolding chat_run
stops = refl

stop_stays_example :
    (stopped.status ≡ ChatStatus.error)
    × (is_busy stopped.status ≡ false)
    × (stopped.reader ≡ none)
    × (stopped.requests ≡ [])
stop_stays_example = stop_stays (λ t. none) waiting_chat late_events stopped refl stops refl
