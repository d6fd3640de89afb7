-- ===== src/Chat/Actions.antt =====
-- The actions `generate` and `clear` of the chat, in src/frontend/src/services/chat.tsx.
use swarm_engine.Prelude.{
  ℕ, ◌+◌, ◌≡◌, refl, sym, ap, subst, ◌⊎◌, inl, inr, Bool, true, false, not, ◌||◌, Option, none,
  some, List, [], ◌∷◌, ◌++◌, map, arith, if◌then◌else◌, Bool-cases, Option-cases, some_inj, length,
  get_elem?, take, length-append, last?, init, init-append-last, find_index,
}
use swarm_engine.Text.{Str, str_eq, truthy, trim}
use swarm_engine.Chat.{
  user, ChatMessage, ChatMessageStatus, closed, opened, ClusterView, finish_last,
}
use swarm_engine.Chat.Provider.{
  ChatState, set_messages, on_close, is_busy, to_request, submit, kept_messages, regenerate,
  user_message, generate_new, generate, clear,
}

-- The messages that `generate` may send: the old ones and a new one of the user, or a beginning of
-- the old ones.
abbrev IsNext : Option ChatMessage → Str → ℕ → ChatState → List ChatMessage → Type 0
IsNext none t n s ms =
    (ms ≡ s.messages ++ user_message t n (trim s.input) ∷ []) × (truthy (trim s.input) ≡ true)
IsNext (some m) t n s ms = (k : ℕ) × (ms ≡ take k s.messages)

-- A call of `generate` that sends.
pub record IsSent (v : ClusterView) (m : Option ChatMessage) (t : Str) (n : ℕ) (s u : ChatState)
    : Type 0 where
  pub available : v.available ≡ true
  pub idle : is_busy s.status ≡ false
  pub named : truthy v.model_name ≡ true
  pub opened : u.status ≡ opened
  pub sent :
      u.requests
      ≡ record { model = v.model_name; messages = map to_request u.messages } ∷ s.requests
  pub history : IsNext m t n s u.messages

kept_messages-take :
    (ms : List ChatMessage) (o : Option ℕ)
    → (kept_messages ms o ≡ none) ⊎ ((k : ℕ) × (kept_messages ms o ≡ some (take k ms)))
unfolding kept_messages
kept_messages-take ms none = inl refl
kept_messages-take ms (some i) = elim (Option-cases (get_elem? ms i)) [
  | inl e ↦ inl (rw (e, kept_messages) refl)
  | inr (m, e) ↦ inr (i + (if str_eq m.role user then 1 else 0), rw (e, kept_messages) refl)
]

-- `generate` behind its guards.
abbrev chosen : ClusterView → Option ChatMessage → Str → ℕ → ChatState → ChatState
chosen v none t n s = generate_new v.model_name t n s
chosen v (some m) t n s = regenerate v.model_name m s

guarded :
    (v : ClusterView) (m : Option ChatMessage) (t : Str) (n : ℕ) (s : ChatState)
    → v.available ≡ true
    → is_busy s.status ≡ false
    → truthy v.model_name ≡ true
    → generate v m t n s ≡ chosen v m t n s
unfolding generate
guarded v none t n s a b c = rw (a, b, c) refl
guarded v (some m) t n s a b c = rw (a, b, c) refl

refused :
    (v : ClusterView) (m : Option ChatMessage) (t : Str) (n : ℕ) (s : ChatState)
    → ((v.available ≡ true) × (is_busy s.status ≡ false) × (truthy v.model_name ≡ true))
      ⊎ (generate v m t n s ≡ s)
unfolding generate
refused v m t n s = elim (Bool-cases v.available) [
  | inr e ↦ inr (rw e refl)
  | inl a ↦ elim (Bool-cases (is_busy s.status)) [
    | inl b ↦ inr (stops v.available (is_busy s.status) _ b)
    | inr b ↦ elim (Bool-cases (truthy v.model_name)) [
      | inr e ↦ inr (unnamed (not v.available || is_busy s.status) (truthy v.model_name) _ e)
      | inl c ↦ inl (a, b, c)
    ]
  ]
]
  where
    stops : (x y : Bool) (r : ChatState) → y ≡ true → (if not x || y then s else r) ≡ s
    stops true y r e = rw e refl
    stops false y r e = refl

    unnamed :
        (x y : Bool) (r : ChatState) → y ≡ false → (if x then s else if not y then s else r) ≡ s
    unnamed true y r e = refl
    unnamed false y r e = rw e refl

chosen-sends :
    (v : ClusterView) (m : Option ChatMessage) (t : Str) (n : ℕ) (s : ChatState)
    → v.available ≡ true
    → is_busy s.status ≡ false
    → truthy v.model_name ≡ true
    → (chosen v m t n s ≡ s) ⊎ IsSent v m t n s (chosen v m t n s)
unfolding generate_new regenerate
chosen-sends v none t n s a b c = elim (Bool-cases (truthy (trim s.input))) [
  | inr e ↦ inl (rw (e, generate_new) refl)
  | inl e ↦ inr (
      subst (IsSent v none t n s) (sym (submitted e)) (record {
        available = a;
        idle = b;
        named = c;
        opened = refl;
        sent = refl;
        history = (refl, e);
      }))
]
  where
    submitted :
        truthy (trim s.input) ≡ true
        → generate_new v.model_name t n s
          ≡ submit v.model_name
              (s.messages ++ user_message t n (trim s.input) ∷ [])
              (record s { input = [] })
    submitted e = rw (e, generate_new) refl
chosen-sends v (some m) t n s a b c =
    elim (kept_messages-take s.messages (find_index (λ x. str_eq x.id m.id) s.messages)) [
      | inl e ↦ inl (rw (e, regenerate) refl)
      | inr (k, e) ↦ inr (
          subst (IsSent v (some m) t n s) (sym (submitted k e)) (record {
            available = a;
            idle = b;
            named = c;
            opened = refl;
            sent = refl;
            history = (k, refl);
          }))
    ]
  where
    submitted :
        (k : ℕ)
        → kept_messages s.messages (find_index (λ x. str_eq x.id m.id) s.messages)
          ≡ some (take k s.messages)
        → regenerate v.model_name m s ≡ submit v.model_name (take k s.messages) s
    submitted k e = rw (e, regenerate) refl

-- `generate` either changes nothing, or it sends: then the cluster is available, no answer is under
-- way, a model is named, and the request holds that model and the messages that the chat then shows,
-- which are the old ones and the trimmed input, or a beginning of the old ones.
pub generate_sends :
    (v : ClusterView) (m : Option ChatMessage) (t : Str) (n : ℕ) (s : ChatState)
    → (generate v m t n s ≡ s) ⊎ IsSent v m t n s (generate v m t n s)
generate_sends v m t n s = elim (refused v m t n s) [
  | inr e ↦ inl e
  | inl g ↦
      subst (λ u. (u ≡ s) ⊎ IsSent v m t n s u) (sym (guarded v m t n s g.0 g.1 g.2))
        (chosen-sends v m t n s g.0 g.1 g.2)
]

length-finish_last : (ms ns : List ChatMessage) → finish_last ms ≡ some ns → length ns ≡ length ms
unfolding finish_last
length-finish_last ms ns h = elim (Option-cases (last? ms)) [
  | inl e ↦ absurd (cc (rw (e, finish_last) at h))
  | inr (m, e) ↦ omega (
    arith,
    ap (length {A = ChatMessage}) (some_inj (rw (e, finish_last) at h)),
    ap (length {A = ChatMessage}) (init-append-last ms m e),
    length-append (init ms) (record m { status = ChatMessageStatus.done } ∷ []),
    length-append (init ms) (m ∷ []),
  )
]

length-on_close : (s : ChatState) → length (on_close s).messages ≡ length s.messages
unfolding on_close
length-on_close s = elim (Option-cases (finish_last s.messages)) [
  | inl e ↦ rw e refl
  | inr (ns, e) ↦ rw e (length-finish_last s.messages ns e)
]

reader-on_close :
    (s : ChatState)
    → ((on_close s).reader ≡ s.reader) × ((on_close s).abort_controller ≡ s.abort_controller)
unfolding on_close
reader-on_close s = go (finish_last s.messages)
  where
    go :
        (o : Option (List ChatMessage))
        → ((set_messages o s).reader ≡ s.reader)
          × ((set_messages o s).abort_controller ≡ s.abort_controller)
    go none = (refl, refl)
    go (some ms) = (refl, refl)

status-on_close : (s : ChatState) → (on_close s).status ≡ closed
unfolding on_close
status-on_close s = refl

clear-busy :
    (s : ChatState)
    → is_busy s.status ≡ true
    → clear s ≡ on_close (record s { reader = none; abort_controller = none })
unfolding clear
clear-busy s h = rw h refl

-- `clear` forgets the messages of a chat that is not busy, and nothing else of it. A busy chat it only
-- stops: the chat is closed, has let its connection go, and keeps as many messages as it had.
clear_cases :
    (s : ChatState)
    → ((is_busy s.status ≡ false) × (clear s ≡ record s { messages = [] }))
      ⊎ ((is_busy s.status ≡ true)
          × ((clear s).status ≡ closed)
          × ((clear s).reader ≡ none)
          × ((clear s).abort_controller ≡ none)
          × (length (clear s).messages ≡ length s.messages))
clear_cases s = elim (Bool-cases (is_busy s.status)) [
  | inl h ↦
      let e = clear-busy s h in
      inr (
        h,
        rw e (status-on_close let_go),
        rw e (reader-on_close let_go).0,
        rw e (reader-on_close let_go).1,
        rw e (length-on_close let_go),
      )
  | inr h ↦ inl (h, unfold clear in rw h refl)
]
  where
    let_go : ChatState
    let_go = record s { reader = none; abort_controller = none }
