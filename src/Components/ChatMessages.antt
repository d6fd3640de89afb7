-- ===== src/Components/ChatMessages.antt =====
-- src/frontend/src/components/inputs/chat-messages.tsx: how the list of messages follows the last one, and
-- what a message shows. Positions are whole pixels.
pub mod Follow
use Prim.Native.Nat.{zero, suc, ◌<◌, ◌≤◌, max, min}
use swarm_engine.Prelude.{
  ℕ, ◌+◌, ◌-◌, ◌*◌, ◌/◌, ◌%◌, String, ◌≡◌, refl, sym, ap, ap₂, subst, ◌∙◌, fun_ext, ◌≢◌, ◌↔◌, ◌⊎◌,
  inl, inr, Bool, true, false, not, ◌&&◌, ◌||◌, Option, none, some, List, [], ◌∷◌, ◌++◌, map,
  append-nil, append_assoc, arith, ltb, leb, ◌==◌, if◌then◌else◌, ==_iff, ==_refl, Bool-cases,
  Option-cases, some_inj, lt→ltb, ge→ltb, ltb→lt, ltb→ge, length, get_elem?, take, drop,
  length-append, take-append-drop, length-drop, take-length-append, drop-append_add, last?, init,
  last?-append, init-append, init-append-last, any, all, filter, find, find_index, length-map,
}
use swarm_engine.Text.{Str, codes, str_eq, truthy}
use swarm_engine.Chat.{user, assistant, ChatMessage, ChatMessageStatus, ChatStatus, opened}

-- The state and the three references of `ChatMessages`. `scrolls` counts the calls of `scrollToBottom`.
pub record ScrollState : Type 0 where
  pub is_bottom : Bool
  pub user_scrolled_up : Bool
  pub auto_scrolling : Bool
  pub prev_scroll_top : ℕ
  pub scrolls : ℕ

abbrev pub new_scroll : ScrollState
new_scroll = record {
  is_bottom = true;
  user_scrolled_up = false;
  auto_scrolling = false;
  prev_scroll_top = 0;
  scrolls = 0;
}

-- The measures of the container at a scroll event.
pub record Container : Type 0 where
  pub scroll_top : ℕ
  pub scroll_height : ℕ
  pub client_height : ℕ

-- `scrollToBottom`, of a container that is there
unfoldable scroll_to_bottom : ScrollState → ScrollState
scroll_to_bottom s = record s {
  user_scrolled_up = false;
  auto_scrolling = true;
  scrolls = s.scrolls + 1;
}

-- The effect of a change of the messages
unfoldable on_messages_change : ScrollState → ScrollState
unfolding scroll_to_bottom
on_messages_change s =
    if s.user_scrolled_up then s else scroll_to_bottom (record s { auto_scrolling = true })

-- `bottomGap < 10`, where the gap may be negative
abbrev near_bottom : Container → Bool
near_bottom c = ltb c.scroll_height (c.scroll_top + c.client_height + 10)

-- `onScroll`
unfoldable on_scroll : Container → ScrollState → ScrollState
on_scroll c s = record s {
  is_bottom = near_bottom c;
  user_scrolled_up =
      not (near_bottom c)
      && (s.user_scrolled_up || not s.auto_scrolling && ltb (c.scroll_top + 2) s.prev_scroll_top);
  prev_scroll_top = c.scroll_top;
}

-- `onWheel`, upwards or not, and `onTouchMove`
unfoldable on_wheel : Bool → ScrollState → ScrollState
on_wheel up s = if up then record s { user_scrolled_up = true } else s

unfoldable on_touch_move : ScrollState → ScrollState
on_touch_move s = record s { user_scrolled_up = true }

-- New messages, a scroll event, the wheel, a touch, the button, and one of the timers.
pub data ScrollEvent : Type 0 where
  messages_change : ScrollEvent
  scroll : Container → ScrollEvent
  wheel : Bool → ScrollEvent
  touch_move : ScrollEvent
  click_bottom : ScrollEvent
  timer : ScrollEvent

unfoldable scroll_step : ScrollState → ScrollEvent → ScrollState
unfolding on_messages_change on_scroll on_wheel on_touch_move scroll_to_bottom
scroll_step s messages_change = on_messages_change s
scroll_step s (scroll c) = on_scroll c s
scroll_step s (wheel up) = on_wheel up s
scroll_step s touch_move = on_touch_move s
scroll_step s click_bottom = scroll_to_bottom s
scroll_step s timer = record s { auto_scrolling = false }

unfoldable pub scroll_run : ScrollState → List ScrollEvent → ScrollState
unfolding scroll_step
scroll_run s [] = s
scroll_run s (e ∷ es) = scroll_run (scroll_step s e) es

-- The parts of the content of a message.
pub data ContentPart : Type 0 where
  user_text thinking_part markdown : Str → ContentPart

-- What a message shows: on which side it stands, its parts, and its buttons.
pub record MessageView : Type 0 where
  pub at_end : Bool
  pub parts : List ContentPart
  pub show_copy : Bool
  pub show_regenerate : Bool

abbrev is_done : ChatMessageStatus → Bool
is_done ChatMessageStatus.done = true
is_done _ = false

abbrev part_if : (Str → ContentPart) → Option Str → List ContentPart
part_if k none = []
part_if k (some t) = if truthy t then k t ∷ [] else []

-- `ChatMessage`
unfoldable message_view : ChatMessage → MessageView
unfolding str_eq
message_view m = record {
  at_end = str_eq m.role user;
  parts =
      if str_eq m.role user
      then user_text m.content ∷ []
      else part_if thinking_part m.thinking ++ part_if markdown (some m.content);
  show_copy = str_eq m.role user || str_eq m.role assistant && is_done m.status;
  show_regenerate = str_eq m.role assistant && is_done m.status;
}

-- What `ChatMessages` shows: the messages, the pulse of a chat that waits for its answer, and the button
-- to the bottom, which is hidden at the bottom.
pub record MessagesView : Type 0 where
  pub items : List MessageView
  pub dot_pulse : Bool
  pub button_hidden : Bool

abbrev waits_for_answer : ChatStatus → Bool
waits_for_answer opened = true
waits_for_answer _ = false

unfoldable messages_view : ScrollState → ChatStatus → List ChatMessage → MessagesView
unfolding message_view
messages_view s c ms = record {
  items = map message_view ms;
  dot_pulse = waits_for_answer c;
  button_hidden = s.is_bottom;
}
