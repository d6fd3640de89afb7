-- ===== src/Examples/Answers.antt =====
-- A streamed answer at concrete bytes.
use swarm_engine.Prelude.{
  ◌≡◌, refl, ◌⊎◌, inl, inr, true, Option, none, some, List, [], ◌∷◌, ◌++◌, if◌then◌else◌,
}
use swarm_engine.Text.{Str, codes, str_eq}
use swarm_engine.LineBuffer.{feed, concat}
use swarm_engine.Json.{Json, num, str, arr, obj, nil, cons, end, entry}
use swarm_engine.Sse.{field_of, process_lines}
use swarm_engine.Sse.Append.{AllData}
use swarm_engine.Chat.{ChatMessage, ChatStatus, Completion}
use swarm_engine.Chat.Provider.{ChatFlight, ChatState, new_chat, user_message}
use swarm_engine.Chat.Deltas.{Holds, IsParsed, all_text}
use swarm_engine.Chat.Connection.{read_body, find_flight}
use swarm_engine.Chat.Connection.Reads.{read_chunks}
use swarm_engine.Chat.Answer.{Carries, nothing, skip, carry, stream_answer}

-- The value of a chunk whose only delta has this text.
abbrev value_of : Str → Json
value_of t = obj (
    entry (codes "object") (str (codes "chat.completion.chunk")) (
      entry (codes "id") (str (codes "c1")) (
        entry (codes "created") (num 9) (
          entry (codes "model") (str (codes "llama")) (
            entry (codes "choices")
              (arr (
                cons (obj (entry (codes "delta") (obj (entry (codes "content") (str t) end)) end))
                  nil))
              end)))))

-- `JSON.parse`, on the texts of this stream.
abbrev parse_value : Str → Option Json
parse_value t =
    if str_eq t (codes "a")
    then some (value_of (codes "he"))
    else if str_eq t (codes "b")
    then some (value_of (codes "y"))
    else none

abbrev completion_of : Str → Completion
completion_of t = record {
  id = codes "c1";
  created = 9;
  model = some (codes "llama");
  deltas = record { role = none; content = some t } ∷ [];
}

abbrev some_texts : List Str
some_texts = codes "data: a\n\nda" ∷ codes "ta: b\n" ∷ codes "data: [DONE]\n" ∷ []

abbrev some_completions : List Completion
some_completions = completion_of (codes "he") ∷ completion_of (codes "y") ∷ []

abbrev reading_flight : ChatFlight
reading_flight = record { id = 0; reading = true; buffer = [] }

abbrev reading_chat : ChatState
reading_chat = record new_chat {
  status = ChatStatus.opened;
  messages = user_message (codes "1") 1 (codes "hello") ∷ [];
  reader = some 0;
  abort_controller = some 0;
  flights = reading_flight ∷ [];
  next_id = 1;
}

lines_AllData : AllData (feed [] (concat some_texts)).0
unfolding feed field_of
lines_AllData = (inr (_, refl, refl), (inl refl, (inr (_, refl, refl), (inr (_, refl, refl), tt))))

lines_Carries : Carries (process_lines parse_value (feed [] (concat some_texts)).0) some_completions
unfolding feed field_of process_lines read_body
lines_Carries = carry true refl (carry true refl (skip refl nothing))

stream_answer_example :
    (u : ChatState) × (read_chunks parse_value 0 some_texts reading_chat ≡ some u)
    × (((all_text some_completions ≡ []) × (u.messages ≡ reading_chat.messages))
        ⊎ ((m : ChatMessage) × (u.messages ≡ reading_chat.messages ++ m ∷ [])
            × Holds (all_text some_completions) m
            × IsParsed (codes "llama") (all_text some_completions) m))
unfolding find_flight str_eq
stream_answer_example =
    stream_answer parse_value 0 0 (codes "llama") reading_chat reading_flight some_texts
      some_completions refl refl refl refl lines_AllData lines_Carries
      (refl, (refl, tt), (refl, (refl, tt), tt)) refl
