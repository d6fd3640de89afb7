-- ===== src/Chat/Deltas.antt =====
-- What the deltas of a chunk make of the last message, in src/frontend/src/services/chat.tsx.
use swarm_engine.Prelude.{
  ◌≡◌, refl, sym, ap, ap₂, subst, ◌∙◌, ◌⊎◌, inl, inr, true, false, Option, none, some, List, [],
  ◌∷◌, ◌++◌, append-nil, append_assoc, if◌then◌else◌, Bool-cases, last?, last?-append, init-append,
  any,
}
use swarm_engine.Text.{Str, str_eq, str_eq_refl, truthy}
use swarm_engine.Chat.{
  ChatMessage, ChatMessageStatus, assistant, Delta, Completion, add_raw, role_or_assistant,
  put_delta, apply_delta, apply_deltas, has_text, text_or_nothing, generation, reparsed,
  reparse_last, receive,
}

-- The text of a delta, of the deltas of a chunk, and of chunks.
abbrev pub text_of : Delta → Str
text_of d = text_or_nothing d.content

abbrev pub texts : List Delta → Str
texts [] = []
texts (d ∷ ds) = text_of d ++ texts ds

abbrev pub all_text : List Completion → Str
all_text [] = []
all_text (c ∷ cs) = texts c.deltas ++ all_text cs

-- The deltas are the assistant's: they name that role, or none.
abbrev pub AllAssistant : List Delta → Type 0
AllAssistant [] = Unit
AllAssistant (d ∷ ds) = (role_or_assistant d.role ≡ assistant) × AllAssistant ds

-- A message of the assistant with this raw text.
pub record Holds (text : Str) (m : ChatMessage) : Type 0 where
  pub role : m.role ≡ assistant
  pub raw : m.raw ≡ some text

str_eq-assistant : (m : ChatMessage) → m.role ≡ assistant → str_eq m.role assistant ≡ true
str_eq-assistant m h = rw h (str_eq_refl assistant)

grown :
    (base : List ChatMessage) (m : ChatMessage) (c : Completion) (r t : Str)
    → Holds r m
    → (m' : ChatMessage) × (put_delta c assistant t (last? (base ++ m ∷ [])) (base ++ m ∷ [])
        ≡ base ++ m' ∷ [])
      × Holds (r ++ t) m'
unfolding put_delta
grown base m c r t h = (
  record m { raw = some (add_raw m.raw t); content = add_raw m.raw t },
  rw (last?-append base m, put_delta) (rw (str_eq-assistant m h.role, init-append base m)),
  record { role = h.role; raw = ap (λ x. some (add_raw x t)) h.raw },
)

apply_delta-Holds :
    (c : Completion) (d : Delta) (base : List ChatMessage) (m : ChatMessage) (r : Str)
    → role_or_assistant d.role ≡ assistant
    → Holds r m
    → (m' : ChatMessage) × (apply_delta c d (base ++ m ∷ []) ≡ base ++ m' ∷ [])
      × Holds (r ++ text_of d) m'
unfolding apply_delta
apply_delta-Holds c d base m r e h = go d.content
  where
    go :
        (o : Option Str)
        → (m' : ChatMessage) × ((elim o [
          | none ↦ base ++ m ∷ []
          | some t ↦
              if truthy t
              then put_delta c
                  (role_or_assistant d.role)
                  t
                  (last? (base ++ m ∷ []))
                  (base ++ m ∷ [])
              else base ++ m ∷ []
        ])
            ≡ base ++ m' ∷ [])
          × Holds (r ++ text_or_nothing o) m'
    go none = (m, refl, rw append-nil h)
    go (some []) = (m, refl, rw append-nil h)
    go (some (x ∷ t)) = rw e (grown base m c r (x ∷ t) h)

pub apply_deltas-Holds :
    (c : Completion) (ds : List Delta) (base : List ChatMessage) (m : ChatMessage) (r : Str)
    → AllAssistant ds
    → Holds r m
    → (m' : ChatMessage) × (apply_deltas c ds (base ++ m ∷ []) ≡ base ++ m' ∷ [])
      × Holds (r ++ texts ds) m'
unfolding apply_deltas
apply_deltas-Holds c [] base m r a h = (m, refl, rw append-nil h)
apply_deltas-Holds c (d ∷ ds) base m r a h =
    let (m1, e1, h1) = apply_delta-Holds c d base m r a.0 h in
    let (m2, e2, h2) = apply_deltas-Holds c ds base m1 (r ++ text_of d) a.1 h1 in
    (
      m2,
      ap (apply_deltas c ds) e1 ∙ e2,
      subst (λ x. Holds x m2) (append_assoc r (text_of d) (texts ds)) h2,
    )

-- The parts of a message are those of its raw text.
pub record IsParsed (model raw : Str) (m : ChatMessage) : Type 0 where
  pub thinking : m.thinking ≡ some (generation model raw).0
  pub content : m.content ≡ (generation model raw).1
  pub status : m.status ≡ (
      if truthy (generation model raw).1
      then ChatMessageStatus.generating
      else ChatMessageStatus.thinking)

pub reparse_last-Holds :
    (model : Str) (base : List ChatMessage) (m : ChatMessage) (r : Str)
    → Holds r m
    → (m' : ChatMessage) × (reparse_last (some model) (base ++ m ∷ []) ≡ base ++ m' ∷ [])
      × Holds r m'
      × IsParsed model r m'
unfolding reparse_last
reparse_last-Holds model base m r h = (
  reparsed m (generation model (text_or_nothing m.raw)),
  rw (last?-append base m, reparse_last) (rw (init-append base m)),
  record { role = h.role; raw = h.raw },
  record {
    thinking = ap (λ x. some (generation model (text_or_nothing x)).0) h.raw;
    content = ap (λ x. (generation model (text_or_nothing x)).1) h.raw;
    status =
        ap
          (λ x.
            if truthy (generation model (text_or_nothing x)).1
            then ChatMessageStatus.generating
            else ChatMessageStatus.thinking)
          h.raw;
  },
)

pub text_cases : (d : Delta) → (has_text d ≡ true) ⊎ ((has_text d ≡ false) × (text_of d ≡ []))
text_cases d = go d.content
  where
    go :
        (o : Option Str)
        → ((elim o [ none ↦ false | some t ↦ truthy t ]) ≡ true)
          ⊎ (((elim o [ none ↦ false | some t ↦ truthy t ]) ≡ false) × (text_or_nothing o ≡ []))
    go none = inr (refl, refl)
    go (some []) = inr (refl, refl)
    go (some (x ∷ t)) = inl refl

pub no_texts : (ds : List Delta) → any has_text ds ≡ false → texts ds ≡ []
no_texts [] h = refl
no_texts (d ∷ ds) h = elim (text_cases d) [
  | inl e ↦ absurd (cc (rw e at h))
  | inr (e, t) ↦ rw t (no_texts ds (rw e at h))
]

-- A chunk after the first one.
pub receive-Holds :
    (model : Str) (c : Completion) (base : List ChatMessage) (m : ChatMessage) (r : Str)
    → c.model ≡ some model
    → AllAssistant c.deltas
    → Holds r m
    → IsParsed model r m
    → (m' : ChatMessage) × (receive c (base ++ m ∷ []) ≡ base ++ m' ∷ [])
      × Holds (r ++ texts c.deltas) m'
      × IsParsed model (r ++ texts c.deltas) m'
unfolding receive
receive-Holds model c base m r e a h p = elim (Bool-cases (any has_text c.deltas)) [
  | inl b ↦
      let (m1, e1, h1) = apply_deltas-Holds c c.deltas base m r a h in
      let (m2, e2, h2, p2) = reparse_last-Holds model base m1 (r ++ texts c.deltas) h1 in
      (m2, rw b (ap₂ reparse_last e e1 ∙ e2), h2, p2)
  | inr b ↦
      (m, rw b refl, subst (λ x. Holds x m) (same b) h, subst (λ x. IsParsed model x m) (same b) p)
]
  where
    same : any has_text c.deltas ≡ false → r ≡ r ++ texts c.deltas
    same b = sym (ap (r ++◌) (no_texts c.deltas b) ∙ append-nil r)
