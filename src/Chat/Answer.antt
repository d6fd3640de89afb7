-- ===== src/Chat/Answer.antt =====
-- From the text of an answer to the message of the chat: the reader, the messages of its lines, and the
-- updater of `onMessage` together, in src/frontend/src/services/chat.tsx.
use swarm_engine.Prelude.{
  ℕ, ◌≡◌, refl, sym, ap, subst, ◌∙◌, ◌⊎◌, Bool, true, false, Option, some, List, [], ◌∷◌, ◌++◌,
  if◌then◌else◌, last?,
}
use swarm_engine.Text.{Str}
use swarm_engine.LineBuffer.{feed, concat}
use swarm_engine.Json.{Json}
use swarm_engine.Sse.{SseMessage, process_lines}
use swarm_engine.Sse.Append.{AllData}
use swarm_engine.Chat.{ChatMessage, ChatStatus, Completion, receive}
use swarm_engine.Chat.Provider.{ChatFlight, ChatState}
use swarm_engine.Chat.Deltas.{Holds, IsParsed, all_text}
use swarm_engine.Chat.Stream.{receive_all, AllOf, is_replying, receive_all-answer}
use swarm_engine.Chat.Connection.{
  ignored, chunk_of, read_body, on_reading, on_messages, find_flight,
}
use swarm_engine.Chat.Connection.Reads.{read_chunks, read_chunks-whole}

-- The messages carry these completions, in order; a message that is no chunk of one is ignored.
pub data Carries : List SseMessage → List Completion → Type 0 where
  nothing : Carries [] []
  skip :
      {m : SseMessage} {ms : List SseMessage} {cs : List Completion}
      → read_body m.body ≡ ignored
      → Carries ms cs
      → Carries (m ∷ ms) cs
  carry :
      {m : SseMessage} {ms : List SseMessage} {c : Completion} {cs : List Completion} (b : Bool)
      → read_body m.body ≡ chunk_of b c
      → Carries ms cs
      → Carries (m ∷ ms) (c ∷ cs)

carried :
    {ms : List SseMessage} {cs : List Completion}
    → Carries ms cs
    → (s : ChatState)
    → ((on_messages ms s).1 ≡ false) × ((on_messages ms s).0.messages ≡ receive_all cs s.messages)
unfolding on_messages on_reading
carried nothing s = (refl, refl)
carried (skip e k) s = let (a, b) = carried k s in rw (e, on_messages) (a, b)
carried (carry {c = c} b e k) s =
    rw (e, on_messages)
      (carried k (record s {
        status = if b then ChatStatus.generating else s.status;
        messages = receive c s.messages;
      }))

-- An answer that a request reads from the network, in any chunks, to a chat whose last message is not the
-- assistant's: while it has no text, the messages stay; else they get one message of the assistant, with
-- the text of the answer, and the thinking and the content that the model's parser makes of it. The
-- request reads with an empty buffer, the lines carry data or are skipped, their values are completions
-- of one model, with deltas of the assistant or of no role, or values that the chat ignores.
pub stream_answer :
    (parse : Str → Option Json) (i j : ℕ) (model : Str) (s : ChatState) (f : ChatFlight)
    (texts : List Str) (cs : List Completion)
    → find_flight i s.flights ≡ some f
    → f.reading ≡ true
    → f.buffer ≡ []
    → s.reader ≡ some j
    → AllData (feed [] (concat texts)).0
    → Carries (process_lines parse (feed [] (concat texts)).0) cs
    → AllOf model cs
    → is_replying (last? s.messages) ≡ false
    → (u : ChatState) × (read_chunks parse i texts s ≡ some u)
      × (((all_text cs ≡ []) × (u.messages ≡ s.messages))
          ⊎ ((m : ChatMessage) × (u.messages ≡ s.messages ++ m ∷ [])
              × Holds (all_text cs) m
              × IsParsed model (all_text cs) m))
stream_answer parse i j model s f texts cs h r b k a w o n =
    let (fine, received) = carried w s in
    let (u, ran, same) = read_chunks-whole parse i j s f texts h r b k a fine in
    let e : u.messages ≡ receive_all cs s.messages =
      ap (λ (x : ChatState). x.messages) same ∙ received in
    (
      u,
      ran,
      subst
          (λ ms.
            ((all_text cs ≡ []) × (ms ≡ s.messages))
            ⊎ ((m : ChatMessage) × (ms ≡ s.messages ++ m ∷ [])
                × Holds (all_text cs) m
                × IsParsed model (all_text cs) m))
          (sym e) (receive_all-answer model cs s.messages o n),
    )
