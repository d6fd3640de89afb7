-- ===== src/Components/Notification.antt =====
-- src/frontend/src/components/mui/alert/notification.tsx: what a notification shows, and the bar that
-- counts down until it is hidden; and `Simple` of src/frontend/src/themes/components/feedback/notistack.tsx,
-- which makes a snack into a notification. `N` is what React renders, and `H` a handler; a node that is
-- false, such as an empty text, counts as absent.
pub mod Countdown
use Prim.Native.Nat.{zero, suc, ◌<◌, ◌≤◌, max, min}
use swarm_engine.Prelude.{
  ℕ, ◌+◌, ◌-◌, ◌*◌, ◌/◌, ◌%◌, String, ◌≡◌, refl, sym, ap, ap₂, subst, ◌∙◌, fun_ext, ◌≢◌, ◌↔◌, ◌⊎◌,
  inl, inr, Bool, true, false, not, ◌&&◌, ◌||◌, Option, none, some, List, [], ◌∷◌, ◌++◌, map,
  append-nil, append_assoc, arith, ltb, leb, ◌==◌, if◌then◌else◌, ==_iff, ==_refl, Bool-cases,
  Option-cases, some_inj, lt→ltb, ge→ltb, ltb→lt, ltb→ge, length, get_elem?, take, drop,
  length-append, take-append-drop, length-drop, take-length-append, drop-append_add, last?, init,
  last?-append, init-append, init-append-last, any, all, filter, find, find_index, length-map,
}
use swarm_engine.Text.{Str, codes}

pub data Severity : Type 0 where
  info success warning error : Severity

pub data AlertVariant : Type 0 where
  notification_variant standard filled outlined : AlertVariant

-- `variant === 'notification'`
abbrev is_notification : Option AlertVariant → Bool
is_notification (some notification_variant) = true
is_notification _ = false

-- `NotificationProps`, as far as the component reads it; the label of the dismiss button has a default.
pub record NotificationProps (N H : Type 0) : Type 0 where
  pub auto_hide_duration : Option ℕ
  pub variant : Option AlertVariant
  pub severity : Severity
  pub title : Option N
  pub children : Option N
  pub action : Option N
  pub on_close : Option H
  pub dismiss_label : Option N
  pub on_dismiss : Option H

-- The buttons: the dismiss button with its label and handler, and the action.
pub record ActionsView (N H : Type 0) : Type 0 where
  pub dismiss : Option (N × H)
  pub action : Option N

-- What stands below the buttons: nothing, the number 0, or the bar of a countdown.
pub data Bottom : Type 0 where
  nothing : Bottom
  zero_text : Bottom
  countdown : ℕ → Severity → Bottom

pub record AlertView (N H : Type 0) : Type 0 where
  pub variant : Option AlertVariant
  pub title : Option N
  pub children : Option N
  pub on_close : Option H
  pub side_actions : Option (ActionsView N H)
  pub bottom_actions : Option (ActionsView N H)
  pub bottom : Bottom

-- The bar: how far it is, the time of its first frame (0 if there was none), and whether it asks for
-- another frame.
pub record CountdownState : Type 0 where
  pub start_time : ℕ
  pub progress : ℕ
  pub running : Bool

abbrev pub compensation : ℕ
compensation = 150

-- `Math.min(100, Math.ceil(x / (duration / 100)))`
unfoldable pub progress_of : ℕ → ℕ → ℕ
progress_of duration x = min 100 ((100 * x + (duration - 1)) / duration)

-- The effect: without a duration there is no frame.
abbrev pub start_countdown : ℕ → CountdownState
start_countdown duration = record { start_time = 0; progress = 0; running = ltb 0 duration }

-- `!startTime`
abbrev started_at : ℕ → ℕ → ℕ
started_at zero t = t
started_at (suc s) t = suc s

-- The callback of a frame at the time `t`.
unfoldable on_frame : ℕ → ℕ → CountdownState → CountdownState
unfolding progress_of
on_frame duration t s =
    let start = started_at s.start_time t in
    let progress = progress_of duration (t + compensation - start) in
    if s.running
    then record { start_time = start; progress = progress; running = ltb progress 100 }
    else s

unfoldable pub countdown_run : ℕ → List ℕ → CountdownState → CountdownState
unfolding on_frame
countdown_run duration [] s = s
countdown_run duration (t ∷ ts) s = countdown_run duration ts (on_frame duration t s)

-- `if (!title && children)`: the content of a notification without a title is its title.
unfoldable heading : {N : Type 0} → Option N → Option N → Option N × Option N
heading (some t) children = (some t, children)
heading none children = (children, none)

-- `autoHideDuration && autoHideDuration > 0 && <Countdown />`
unfoldable pub bottom_of : Severity → Option ℕ → Bottom
bottom_of severity none = nothing
bottom_of severity (some zero) = zero_text
bottom_of severity (some (suc d)) = countdown (suc d) severity

module _ {N H : Type 0} where
  -- `nodeDismiss`
  unfoldable dismiss_button : N → Option N → Option H → Option (N × H)
  dismiss_button default_label label none = none
  dismiss_button default_label none (some h) = some (default_label, h)
  dismiss_button default_label (some l) (some h) = some (l, h)

  -- `nodeActions`
  unfoldable actions_of : Option (N × H) → Option N → Option (ActionsView N H)
  actions_of none none = none
  actions_of dismiss action = some (record { dismiss = dismiss; action = action })

  -- `Notification`; `default_label` is the text Dismiss.
  unfoldable pub notification_view : N → NotificationProps N H → AlertView N H
  unfolding heading dismiss_button actions_of bottom_of
  notification_view default_label p =
      let (title, children) = heading p.title p.children in
      let actions =
        actions_of (dismiss_button default_label p.dismiss_label p.on_dismiss) p.action in
      if is_notification p.variant
      then record {
        variant = p.variant;
        title = title;
        children = children;
        on_close = p.on_close;
        side_actions = none;
        bottom_actions = actions;
        bottom = bottom_of p.severity p.auto_hide_duration;
      }
      else record {
        variant = p.variant;
        title = title;
        children = children;
        on_close = p.on_close;
        side_actions = actions;
        bottom_actions = none;
        bottom = nothing;
      }

-- The variant of a snack; a default one is an information.
pub data SnackVariant : Type 0 where
  default_variant : SnackVariant
  of_severity : Severity → SnackVariant

-- A snack, as far as `Simple` reads it. An action may be a function of the snack's key.
pub record Snack (K N : Type 0) : Type 0 where
  pub id : K
  pub variant : SnackVariant
  pub title : Option N
  pub message : Option N
  pub action : Option ((K → Option N) ⊎ N)
  pub notification : Option Bool
  pub closable : Option Bool
  pub dismiss_able : Option Bool
  pub auto_hide_duration : Option ℕ

abbrev default_to : Bool → Option Bool → Bool
default_to d none = d
default_to d (some b) = b

abbrev severity_of : SnackVariant → Severity
severity_of default_variant = info
severity_of (of_severity s) = s

-- `d || undefined`
abbrev positive_duration : Option ℕ → Option ℕ
positive_duration (some (suc d)) = some (suc d)
positive_duration _ = none

abbrev action_node : {K N : Type 0} → K → Option ((K → Option N) ⊎ N) → Option N
action_node id none = none
action_node id (some (inl f)) = f id
action_node id (some (inr n)) = some n

abbrev handler_if : {H : Type 0} → Bool → H → Option H
handler_if b h = if b then some h else none

module _ {K N H : Type 0} (close_snackbar : K → H) where
  -- `Simple`; `close_snackbar id` is the handler that closes the snack.
  unfoldable pub simple_props : Snack K N → NotificationProps N H
  simple_props s =
      let notification = default_to true s.notification in
      record {
        auto_hide_duration = positive_duration s.auto_hide_duration;
        variant = some (if notification then notification_variant else outlined);
        severity = severity_of s.variant;
        title = s.title;
        children = s.message;
        action = action_node s.id s.action;
        on_close = handler_if (default_to notification s.closable) (close_snackbar s.id);
        dismiss_label = none;
        on_dismiss = handler_if (default_to false s.dismiss_able) (close_snackbar s.id);
      }
