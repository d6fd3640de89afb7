-- ===== src/Chat.antt =====
-- src/frontend/src/services/chat.tsx: the messages of the chat and what the callbacks of `ChatProvider`
-- make of them. Chat/Provider.antt has the state and the actions, and Chat/Connection.antt the events of
-- `createSSE`.
pub mod Provider
pub mod Connection
pub mod Deltas
pub mod Stream
pub mod Actions
pub mod Busy
pub mod Requests
pub mod Answer
use swarm_engine.Prelude.{
  ℕ, Bool, false, Option, none, some, List, [], ◌∷◌, ◌++◌, if◌then◌else◌, last?, init, any,
}
use swarm_engine.Text.{Str, codes, str_eq, truthy, or_else, includes, to_lower}
use swarm_engine.ChatHelper.Gpt.{GptGenerationMap, lookup, parse_generation_gpt}
use swarm_engine.ChatHelper.Qwen.{QwenGenerationMap, parse_generation_qwen}

abbrev pub user : Str
user = codes "user"

abbrev pub assistant : Str
assistant = codes "assistant"

pub data ChatMessageStatus : Type 0 where
  waiting thinking generating done error : ChatMessageStatus

-- `role` is a string, as a server may send another than the two roles.
pub record ChatMessage : Type 0 where
  pub id : Str
  pub role : Str
  pub status : ChatMessageStatus
  pub content : Str
  pub raw : Option Str
  pub thinking : Option Str
  pub created_at : ℕ

pub data ChatStatus : Type 0 where
  closed opened generating error : ChatStatus

pub record RequestMessage : Type 0 where
  pub id : Str
  pub role : Str
  pub content : Str

pub record ChatRequest : Type 0 where
  pub model : Str
  pub messages : List RequestMessage

-- What the clusters service says, as far as the chat reads it.
pub record ClusterView : Type 0 where
  pub available : Bool
  pub model_name : Str

-- The delta of a choice that has one.
pub record Delta : Type 0 where
  pub role : Option Str
  pub content : Option Str

-- The message that a chunk of a completion carries.
pub record Completion : Type 0 where
  pub id : Str
  pub created : ℕ
  pub model : Option Str
  pub deltas : List Delta

-- `lastMessage.raw + rawDelta`: an absent text is added as `undefined`.
unfoldable add_raw : Option Str → Str → Str
add_raw none d = codes "undefined" ++ d
add_raw (some r) d = r ++ d

-- `role || 'assistant'`
abbrev role_or_assistant : Option Str → Str
role_or_assistant none = assistant
role_or_assistant (some r) = or_else r assistant

abbrev new_reply : Completion → Str → Str → ChatMessage
new_reply c role d = record {
  id = c.id;
  role = role;
  status = thinking;
  content = d;
  raw = some d;
  thinking = none;
  created_at = c.created;
}

-- A delta goes to the last message, if that has its role, and to a new message if not.
unfoldable put_delta :
    Completion → Str → Str → Option ChatMessage → List ChatMessage → List ChatMessage
unfolding str_eq add_raw
put_delta c role d none ms = ms ++ new_reply c role d ∷ []
put_delta c role d (some last) ms =
    if str_eq last.role role
    then init ms
      ++ record last { raw = some (add_raw last.raw d); content = add_raw last.raw d } ∷ []
    else ms ++ new_reply c role d ∷ []

-- One choice; one with no text is skipped.
unfoldable apply_delta : Completion → Delta → List ChatMessage → List ChatMessage
unfolding put_delta
apply_delta c d ms = elim d.content [
  | none ↦ ms
  | some t ↦ if truthy t then put_delta c (role_or_assistant d.role) t (last? ms) ms else ms
]

unfoldable apply_deltas : Completion → List Delta → List ChatMessage → List ChatMessage
unfolding apply_delta
apply_deltas c [] ms = ms
apply_deltas c (d ∷ ds) ms = apply_deltas c ds (apply_delta c d ms)

abbrev has_text : Delta → Bool
has_text d = elim d.content [ none ↦ false | some t ↦ truthy t ]

abbrev text_or_nothing : Option Str → Str
text_or_nothing none = []
text_or_nothing (some t) = t

-- The thinking and the content of a map. Both parsers return a value on every text.
abbrev gpt_parts : Option GptGenerationMap → Str × Str
gpt_parts none = ([], [])
gpt_parts (some m) =
    (text_or_nothing (lookup (codes "analysis") m), text_or_nothing (lookup (codes "final") m))

abbrev qwen_parts : Option QwenGenerationMap → Str × Str
qwen_parts none = ([], [])
qwen_parts (some m) = (m.think, m.content)

-- The parser is chosen by the name of the model.
unfoldable generation : Str → Str → Str × Str
unfolding includes to_lower
generation model raw =
    if includes (codes "gpt-oss") (to_lower model)
    then gpt_parts (parse_generation_gpt raw)
    else if includes (codes "qwen") (to_lower model)
    then qwen_parts (parse_generation_qwen raw)
    else ([], raw)

abbrev reparsed : ChatMessage → Str × Str → ChatMessage
reparsed m (t, c) = record m {
  status = if truthy c then generating else thinking;
  thinking = some t;
  content = c;
}

-- The last message is parsed anew, if the chunk named a model.
unfoldable reparse_last : Option Str → List ChatMessage → List ChatMessage
unfolding generation
reparse_last none ms = ms
reparse_last (some model) ms = elim (last? ms) [
  | none ↦ ms
  | some m ↦ init ms ++ reparsed m (generation model (text_or_nothing m.raw)) ∷ []
]

-- The updater of `onMessage`. Nothing changes if no choice has a text.
unfoldable receive : Completion → List ChatMessage → List ChatMessage
unfolding apply_deltas reparse_last
receive c ms =
    if any has_text c.deltas then reparse_last c.model (apply_deltas c c.deltas ms) else ms

-- The updater of `onClose` and of `onError`: the last message is done. With no message it throws.
unfoldable finish_last : List ChatMessage → Option (List ChatMessage)
finish_last ms = elim (last? ms) [
  | none ↦ none
  | some m ↦ some (init ms ++ record m { status = done } ∷ [])
]
