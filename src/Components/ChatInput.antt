-- ===== src/Components/ChatInput.antt =====
-- src/frontend/src/components/inputs/chat-input.tsx: the input of the chat, its two buttons and its
-- handlers, over the state of the chat.
use swarm_engine.Prelude.{
  ℕ, ◌≡◌, refl, sym, ap, subst, ◌∙◌, ◌⊎◌, inl, inr, Bool, true, false, not, ◌&&◌, ◌||◌, none,
  if◌then◌else◌, Bool-cases,
}
use swarm_engine.Text.{Str}
use swarm_engine.Cluster.{ClusterStatus}
use swarm_engine.Chat.{ChatStatus, opened, generating, ClusterView}
use swarm_engine.Chat.Provider.{ChatState, is_busy, generate, stop, clear, on_close, disconnect}
use swarm_engine.Chat.Actions.{IsSent, generate_sends}

-- The events of the component. A key is `Enter` or another, with or without the shift key.
pub data InputEvent : Type 0 where
  change : Str → InputEvent
  composition_start composition_end : InputEvent
  key_down : Bool → Bool → InputEvent
  click_main click_clear : InputEvent

-- The chat, and whether the user composes a character.
pub record InputState : Type 0 where
  pub composing : Bool
  pub chat : ChatState

-- `onClickMainButton`, by the status of the chat
unfoldable on_click_main : ClusterView → Str → ℕ → ChatState → ChatState
unfolding stop generate
on_click_main v now_text now s = if is_busy s.status then stop s else generate v none now_text now s

-- `onKeyDown`
unfoldable on_key_down : ClusterView → Str → ℕ → Bool → Bool → InputState → InputState
unfolding generate
on_key_down v now_text now enter shift s =
    if enter && not shift && not s.composing
    then record s { chat = generate v none now_text now s.chat }
    else s

unfoldable on_input : ClusterView → Str → ℕ → InputEvent → InputState → InputState
unfolding on_click_main on_key_down clear
on_input v now_text now (change t) s = record s { chat = record s.chat { input = t } }
on_input v now_text now composition_start s = record s { composing = true }
on_input v now_text now composition_end s = record s { composing = false }
on_input v now_text now (key_down enter shift) s = on_key_down v now_text now enter shift s
on_input v now_text now click_main s = record s { chat = on_click_main v now_text now s.chat }
on_input v now_text now click_clear s = record s { chat = clear s.chat }

pub data MainIcon : Type 0 where
  dot_pulse square arrow_up : MainIcon

-- What the component shows: the text, and the two buttons.
pub record InputView : Type 0 where
  pub value : Str
  pub clear_disabled : Bool
  pub main_disabled : Bool
  pub main_icon : MainIcon

abbrev main_icon_of : ChatStatus → MainIcon
main_icon_of opened = dot_pulse
main_icon_of generating = square
main_icon_of _ = arrow_up

abbrev is_opened : ChatStatus → Bool
is_opened opened = true
is_opened _ = false

abbrev cluster_available : ClusterStatus → Bool
cluster_available ClusterStatus.available = true
cluster_available _ = false

unfoldable input_view : ClusterStatus → ChatState → InputView
input_view c s = record {
  value = s.input;
  clear_disabled = is_busy s.status;
  main_disabled = not (cluster_available c) || is_opened s.status;
  main_icon = main_icon_of s.status;
}

stopped-idle : (s : ChatState) → is_busy s.status ≡ true → is_busy (stop s).status ≡ false
unfolding stop disconnect on_close
stopped-idle s h = rw h refl

-- A click of the main button stops a busy chat, which is then not busy. A chat that is not busy it leaves
-- as it was, or it sends a request of the input, after which the chat is busy.
click_main_cases :
    (v : ClusterView) (t : Str) (n : ℕ) (s : ChatState)
    → ((is_busy s.status ≡ true) × (is_busy (on_click_main v t n s).status ≡ false))
      ⊎ ((is_busy s.status ≡ false) × (on_click_main v t n s ≡ s))
      ⊎ ((is_busy s.status ≡ false)
          × IsSent v none t n s (on_click_main v t n s)
          × (is_busy (on_click_main v t n s).status ≡ true))
click_main_cases v t n s = elim (Bool-cases (is_busy s.status)) [
  | inl h ↦ inl (h, ap (λ (x : ChatState). is_busy x.status) (busy h) ∙ stopped-idle s h)
  | inr h ↦ elim (generate_sends v none t n s) [
    | inl e ↦ inr (inl (h, idle h ∙ e))
    | inr e ↦ inr (
        inr (
          h,
          subst (IsSent v none t n s) (sym (idle h)) e,
          ap (λ (x : ChatState). is_busy x.status) (idle h) ∙ ap is_busy e.opened,
        ))
  ]
]
  where
    busy : is_busy s.status ≡ true → on_click_main v t n s ≡ stop s
    busy h = unfold on_click_main in rw h refl

    idle : is_busy s.status ≡ false → on_click_main v t n s ≡ generate v none t n s
    idle h = unfold on_click_main in rw h refl
