-- ===== src/Chat/Stream.antt =====
-- How `onMessage` of src/frontend/src/services/chat.tsx puts an answer together out of its chunks.
use swarm_engine.Prelude.{
  ◌≡◌, refl, sym, ap, ap₂, subst, ◌∙◌, ◌⊎◌, inl, inr, Bool, true, false, Option, none, some, List,
  [], ◌∷◌, ◌++◌, append-nil, append_assoc, if◌then◌else◌, Bool-cases, last?, any,
}
use swarm_engine.Text.{Str, str_eq, truthy}
use swarm_engine.Chat.{
  ChatMessage, assistant, Delta, Completion, role_or_assistant, new_reply, put_delta, apply_delta,
  apply_deltas, has_text, text_or_nothing, reparse_last, receive,
}
use swarm_engine.Chat.Deltas.{
  text_of, texts, all_text, AllAssistant, Holds, apply_deltas-Holds, IsParsed, reparse_last-Holds,
  text_cases, no_texts, receive-Holds,
}

-- The chunks of one answer: all name the model, and their deltas are the assistant's.
abbrev pub AllOf : Str → List Completion → Type 0
AllOf model [] = Unit
AllOf model (c ∷ cs) = (c.model ≡ some model) × AllAssistant c.deltas × AllOf model cs

abbrev pub receive_all : List Completion → List ChatMessage → List ChatMessage
receive_all [] ms = ms
receive_all (c ∷ cs) ms = receive_all cs (receive c ms)

continued :
    (model : Str) (cs : List Completion) (base : List ChatMessage) (m : ChatMessage) (r : Str)
    → AllOf model cs
    → Holds r m
    → IsParsed model r m
    → (m' : ChatMessage) × (receive_all cs (base ++ m ∷ []) ≡ base ++ m' ∷ [])
      × Holds (r ++ all_text cs) m'
      × IsParsed model (r ++ all_text cs) m'
continued model [] base m r a h p = (m, refl, rw append-nil h, rw append-nil p)
continued model (c ∷ cs) base m r a h p =
    let (m1, e1, h1, p1) = receive-Holds model c base m r a.0 a.1 h p in
    let (m2, e2, h2, p2) = continued model cs base m1 (r ++ texts c.deltas) a.2 h1 p1 in
    (
      m2,
      ap (receive_all cs) e1 ∙ e2,
      subst (λ x. Holds x m2) (append_assoc r (texts c.deltas) (all_text cs)) h2,
      subst (λ x. IsParsed model x m2) (append_assoc r (texts c.deltas) (all_text cs)) p2,
    )

-- The last message is not the assistant's, or there is none.
abbrev pub is_replying : Option ChatMessage → Bool
is_replying none = false
is_replying (some m) = str_eq m.role assistant

put_first :
    (c : Completion) (t : Str) (o : Option ChatMessage) (ms : List ChatMessage)
    → is_replying o ≡ false
    → put_delta c assistant t o ms ≡ ms ++ new_reply c assistant t ∷ []
unfolding put_delta
put_first c t none ms h = refl
put_first c t (some m) ms h = rw h refl

apply_delta-skip :
    (c : Completion) (d : Delta) (ms : List ChatMessage)
    → has_text d ≡ false
    → apply_delta c d ms ≡ ms
unfolding apply_delta
apply_delta-skip c d ms = go d.content
  where
    go :
        (o : Option Str)
        → (elim o [ none ↦ false | some t ↦ truthy t ]) ≡ false
        → (elim o [
          | none ↦ ms
          | some t ↦ if truthy t then put_delta c (role_or_assistant d.role) t (last? ms) ms else ms
        ])
          ≡ ms
    go none h = refl
    go (some t) h = rw h refl

apply_delta-first :
    (c : Completion) (d : Delta) (ms : List ChatMessage)
    → is_replying (last? ms) ≡ false
    → role_or_assistant d.role ≡ assistant
    → has_text d ≡ true
    → apply_delta c d ms ≡ ms ++ new_reply c assistant (text_of d) ∷ []
unfolding apply_delta
apply_delta-first c d ms n a = go d.content
  where
    go :
        (o : Option Str)
        → (elim o [ none ↦ false | some t ↦ truthy t ]) ≡ true
        → (elim o [
          | none ↦ ms
          | some t ↦ if truthy t then put_delta c (role_or_assistant d.role) t (last? ms) ms else ms
        ])
          ≡ ms ++ new_reply c assistant (text_or_nothing o) ∷ []
    go none h = cc
    go (some t) h = rw h (rw a (put_first c t (last? ms) ms n))

-- The first text of an answer begins a new message.
apply_deltas-first :
    (c : Completion) (ds : List Delta) (ms : List ChatMessage)
    → is_replying (last? ms) ≡ false
    → AllAssistant ds
    → any has_text ds ≡ true
    → (m : ChatMessage) × (apply_deltas c ds ms ≡ ms ++ m ∷ []) × Holds (texts ds) m
unfolding apply_deltas
apply_deltas-first c [] ms n a h = cc
apply_deltas-first c (d ∷ ds) ms n a h = elim (text_cases d) [
  | inl e ↦
      let (m, p, q) =
        apply_deltas-Holds c ds ms (new_reply c assistant (text_of d)) (text_of d) a.1
          (record { role = refl; raw = refl }) in
      (m, ap (apply_deltas c ds) (apply_delta-first c d ms n a.0 e) ∙ p, q)
  | inr (e, t) ↦
      let (m, p, q) = apply_deltas-first c ds ms n a.1 (rw e at h) in
      (
        m,
        ap (apply_deltas c ds) (apply_delta-skip c d ms e) ∙ p,
        subst (λ x. Holds (x ++ texts ds) m) (sym t) q,
      )
]

receive-first :
    (model : Str) (c : Completion) (ms : List ChatMessage)
    → c.model ≡ some model
    → is_replying (last? ms) ≡ false
    → AllAssistant c.deltas
    → any has_text c.deltas ≡ true
    → (m : ChatMessage) × (receive c ms ≡ ms ++ m ∷ [])
      × Holds (texts c.deltas) m
      × IsParsed model (texts c.deltas) m
unfolding receive
receive-first model c ms e n a b =
    let (m1, e1, h1) = apply_deltas-first c c.deltas ms n a b in
    let (m2, e2, h2, p2) = reparse_last-Holds model ms m1 (texts c.deltas) h1 in
    (m2, rw b (ap₂ reparse_last e e1 ∙ e2), h2, p2)

receive-none :
    (c : Completion) (ms : List ChatMessage) → any has_text c.deltas ≡ false → receive c ms ≡ ms
unfolding receive
receive-none c ms b = rw b refl

-- An answer that is streamed in any number of chunks, to messages of which the last is not the
-- assistant's, adds nothing while it has no text, and else one message of the assistant: its raw text
-- is the text of all the chunks, its thinking and its content are what the parser of the model makes
-- of that text, its status says whether there is content, and the messages before it stay. All chunks
-- name the model, and their deltas name the assistant or no role.
pub receive_all-answer :
    (model : Str) (cs : List Completion) (ms : List ChatMessage)
    → AllOf model cs
    → is_replying (last? ms) ≡ false
    → ((all_text cs ≡ []) × (receive_all cs ms ≡ ms))
      ⊎ ((m : ChatMessage) × (receive_all cs ms ≡ ms ++ m ∷ [])
          × Holds (all_text cs) m
          × IsParsed model (all_text cs) m)
receive_all-answer model [] ms a n = inl (refl, refl)
receive_all-answer model (c ∷ cs) ms a n = elim (Bool-cases (any has_text c.deltas)) [
  | inl b ↦
      let (m1, e1, h1, p1) = receive-first model c ms a.0 n a.1 b in
      let (m2, e2, h2, p2) = continued model cs ms m1 (texts c.deltas) a.2 h1 p1 in
      inr (m2, ap (receive_all cs) e1 ∙ e2, h2, p2)
  | inr b ↦
      unchanged (receive-none c ms b) (no_texts c.deltas b) (receive_all-answer model cs ms a.2 n)
]
  where
    unchanged :
        receive c ms ≡ ms
        → texts c.deltas ≡ []
        → ((all_text cs ≡ []) × (receive_all cs ms ≡ ms))
          ⊎ ((m : ChatMessage) × (receive_all cs ms ≡ ms ++ m ∷ [])
              × Holds (all_text cs) m
              × IsParsed model (all_text cs) m)
        → ((texts c.deltas ++ all_text cs ≡ []) × (receive_all cs (receive c ms) ≡ ms))
          ⊎ ((m : ChatMessage) × (receive_all cs (receive c ms) ≡ ms ++ m ∷ [])
              × Holds (texts c.deltas ++ all_text cs) m
              × IsParsed model (texts c.deltas ++ all_text cs) m)
    unchanged e t h = rw (e, t) h
