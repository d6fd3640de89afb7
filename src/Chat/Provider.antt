-- ===== src/Chat/Provider.antt =====
-- The state of the chat with its connection, and the actions of `ChatProvider` in
-- src/frontend/src/services/chat.tsx.
use swarm_engine.Prelude.{
  ℕ, ◌+◌, Bool, true, false, not, ◌||◌, Option, none, some, List, [], ◌∷◌, ◌++◌, map, if◌then◌else◌,
  get_elem?, take, find_index,
}
use swarm_engine.Text.{Str, str_eq, truthy, trim}
use swarm_engine.Chat.{
  user, ChatMessage, ChatMessageStatus, ChatStatus, closed, opened, generating, error,
  RequestMessage, ChatRequest, ClusterView, finish_last,
}

-- A request in flight: it waits for its response, or reads its body.
pub record ChatFlight : Type 0 where
  pub id : ℕ
  pub reading : Bool
  pub buffer : Str

-- The states of the provider, the variables of the connection, the requests in flight and all that
-- were sent, the last first. `crashed` says that an updater has thrown.
pub record ChatState : Type 0 where
  pub input : Str
  pub status : ChatStatus
  pub messages : List ChatMessage
  pub crashed : Bool
  pub reader : Option ℕ
  pub abort_controller : Option ℕ
  pub flights : List ChatFlight
  pub next_id : ℕ
  pub requests : List ChatRequest

abbrev pub new_chat : ChatState
new_chat = record {
  input = [];
  status = closed;
  messages = [];
  crashed = false;
  reader = none;
  abort_controller = none;
  flights = [];
  next_id = 0;
  requests = [];
}

abbrev pub set_messages : Option (List ChatMessage) → ChatState → ChatState
set_messages none s = record s { crashed = true }
set_messages (some ms) s = record s { messages = ms }

-- `onClose` and `onError` of the provider
unfoldable pub on_close : ChatState → ChatState
unfolding finish_last
on_close s = record (set_messages (finish_last s.messages) s) { status = closed }

unfoldable pub on_error : ChatState → ChatState
unfolding finish_last
on_error s = record (set_messages (finish_last s.messages) s) { status = error }

-- `disconnect`
unfoldable pub disconnect : ChatState → ChatState
unfolding on_close
disconnect s = on_close (record s { reader = none; abort_controller = none })

-- `connect`, up to the call of `fetch`
unfoldable connect : ChatRequest → ChatState → ChatState
connect r s = record s {
  abort_controller = some s.next_id;
  status = opened;
  flights = record { id = s.next_id; reading = false; buffer = [] } ∷ s.flights;
  next_id = s.next_id + 1;
  requests = r ∷ s.requests;
}

abbrev pub is_busy : ChatStatus → Bool
is_busy opened = true
is_busy generating = true
is_busy _ = false

abbrev pub to_request : ChatMessage → RequestMessage
to_request m = record { id = m.id; role = m.role; content = m.content }

-- The messages are set, and sent.
unfoldable pub submit : Str → List ChatMessage → ChatState → ChatState
unfolding connect
submit model ms s =
    connect (record { model = model; messages = map to_request ms }) (record s { messages = ms })

-- Up to the message and with it if it is the user's, and without it if not.
unfoldable pub kept_messages : List ChatMessage → Option ℕ → Option (List ChatMessage)
unfolding str_eq
kept_messages ms none = none
kept_messages ms (some i) = elim (get_elem? ms i) [
  | none ↦ none
  | some m ↦ some (take (i + (if str_eq m.role user then 1 else 0)) ms)
]

unfoldable pub regenerate : Str → ChatMessage → ChatState → ChatState
unfolding submit kept_messages
regenerate model m s =
    elim (kept_messages s.messages (find_index (λ x. str_eq x.id m.id) s.messages)) [
      | none ↦ s
      | some ms ↦ submit model ms s
    ]

abbrev pub user_message : Str → ℕ → Str → ChatMessage
user_message now_text now text = record {
  id = now_text;
  role = user;
  status = ChatMessageStatus.done;
  content = text;
  raw = none;
  thinking = none;
  created_at = now;
}

-- A new message, unless the input is blank.
unfoldable pub generate_new : Str → Str → ℕ → ChatState → ChatState
unfolding submit trim
generate_new model now_text now s =
    if truthy (trim s.input)
    then submit model (s.messages ++ user_message now_text now (trim s.input) ∷ [])
        (record s { input = [] })
    else s

-- `generate`; `now` is the time, and `now_text` its text.
unfoldable pub generate : ClusterView → Option ChatMessage → Str → ℕ → ChatState → ChatState
unfolding regenerate generate_new
generate v message now_text now s =
    if not v.available || is_busy s.status
    then s
    else if not (truthy v.model_name)
    then s
    else elim message [
      | none ↦ generate_new v.model_name now_text now s
      | some m ↦ regenerate v.model_name m s
    ]

-- `stop`
unfoldable pub stop : ChatState → ChatState
unfolding disconnect
stop s = if is_busy s.status then disconnect s else s

-- `clear`: the status that it tests is the one before its call of `stop`.
unfoldable pub clear : ChatState → ChatState
unfolding stop
clear s = if is_busy s.status then stop s else record (stop s) { messages = [] }
