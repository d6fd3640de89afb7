-- ===== src/Examples/Views.antt =====
-- The theme and what the components show, at concrete values.
use Prim.Native.Nat.{◌<◌, ◌≤◌}
use swarm_engine.Prelude.{
  ℕ, ◌+◌, ◌-◌, ◌*◌, ◌≡◌, refl, ◌↔◌, ◌⊎◌, Bool, true, false, Option, none, some, List, [], ◌∷◌, map,
  arith, length,
}
use swarm_engine.Text.{Str, codes, truthy, str_eq}
use swarm_engine.Cluster.{initial_state}
use swarm_engine.Components.ChatMarkdown.{
  replace_escaped, preprocess_math, preprocess_think, schema_tags,
}
use swarm_engine.Components.ChatMarkdown.Math.{is_math_delimiter, preprocess_math_lem}
use swarm_engine.Components.Notification.{
  countdown, zero_text, compensation, progress_of, start_countdown, countdown_run, Severity,
  default_variant, Snack, notification_view, simple_props, bottom_of, notification_variant,
}
use swarm_engine.Components.Notification.Countdown.{last_time, countdown_follows}
use swarm_engine.Components.Copied.{
  JoinEvent, copy_key, key_timer_ends, new_join, join_run, command_of, join_items, JoinItem,
  new_copied, press_copy, CopyEvent, copied_run, copy_button,
}
use swarm_engine.Components.Copied.Marks.{mark_tells_clipboard}
use swarm_engine.Components.AlertDialog.View.{
  AlertDialogProps, AlertDialogColor, AlertDialogView, TitleMark, alert_dialog, no_icon, node_mark,
}
use swarm_engine.Components.DrawerLayout.View.{
  new_sidebar, toggle, add_nodes, sidebar_run, layout_view,
}
use swarm_engine.Components.MainLayout.{main_layout, not_given, EndView}
use swarm_engine.Components.TitleIcon.{title_icon, css_inherit, palette_main, warning}
use swarm_engine.Theme.{info, palette_color}
use swarm_engine.Theme.Controls.{filled, chip_styles, slider_styles, progress_styles}
use swarm_engine.Theme.Button.{
  contained_circle, text, shadow, coloring, texting, shadow_style, color_style, text_style,
  button_styles,
}

abbrev a_formula : Str
a_formula = codes "\\[a\\] \\(b\\)"

preprocess_math_lem_example :
    (preprocess_math a_formula ≡ replace_escaped is_math_delimiter (b'$' ∷ []) a_formula)
    × (preprocess_math (preprocess_math a_formula) ≡ preprocess_math a_formula)
preprocess_math_lem_example = preprocess_math_lem a_formula

-- A block formula gets the delimiters of an inline one.
one_dollar : preprocess_math a_formula ≡ codes "$a$ $b$"
unfolding preprocess_math
one_dollar = refl

thought : preprocess_think (codes "<think>a</think>b") ≡ codes "<think>\n\na\n\n</think>\n\nb"
unfolding preprocess_think
thought = refl

no_script : schema_tags (some (codes "p" ∷ codes "script" ∷ [])) ≡ codes "p" ∷ []
unfolding schema_tags
no_script = refl

abbrev some_frames : List ℕ
some_frames = 50 ∷ 1000 ∷ 4990 ∷ 5005 ∷ []

countdown_follows_example :
    ((countdown_run 5000 (20 ∷ some_frames) (start_countdown 5000)).progress
      ≡ progress_of 5000 (last_time 20 some_frames - 20 + compensation))
    × ((countdown_run 5000 (20 ∷ some_frames) (start_countdown 5000)).progress ≤ 100)
    × (((countdown_run 5000 (20 ∷ some_frames) (start_countdown 5000)).running ≡ false)
        ↔ (99 * 5000 < 100 * (last_time 20 some_frames - 20 + compensation)))
countdown_follows_example =
    countdown_follows 5000 20 some_frames (omega arith) (omega arith)
      (omega arith, (omega arith, (omega arith, (omega arith, tt))))

abbrev some_commands : List (Str × Str)
some_commands = (codes "linux/mac", codes "run") ∷ (codes "windows", codes "run.exe") ∷ []

abbrev copy_events : List JoinEvent
copy_events =
    copy_key (codes "windows") true
    ∷ key_timer_ends
    ∷ copy_key (codes "linux/mac") true
    ∷ copy_key (codes "windows") false
    ∷ []

marked : (join_run some_commands new_join copy_events).copied_key ≡ some (codes "linux/mac")
unfolding join_run str_eq
marked = refl

mark_tells_clipboard_example :
    ((join_run some_commands new_join copy_events).clipboard
      ≡ command_of (codes "linux/mac") some_commands)
    × ((truthy (codes "linux/mac") ≡ false)
        ⊎ ((join_run some_commands new_join copy_events).timer ≡ true))
mark_tells_clipboard_example =
    mark_tells_clipboard some_commands copy_events (codes "linux/mac") marked

labels :
    map
      (λ (i : JoinItem). i.label)
      (join_items
        (record initial_state.cluster_info { node_join_command = some_commands })
        new_join)
    ≡ some (codes "For Linux/MacOS:") ∷ some (codes "For Windows:") ∷ []
unfolding join_items
labels = refl

copied_ends :
    (copy_button
      (copied_run new_copied (press_copy (codes "a") ∷ CopyEvent.timer_ends ∷ []))).check_icon
    ≡ false
unfolding copied_run
copied_ends = refl

abbrev a_snack : Snack ℕ Str
a_snack = record {
  id = 3;
  variant = default_variant;
  title = none;
  message = some (codes "saved");
  action = none;
  notification = none;
  closable = none;
  dismiss_able = some true;
  auto_hide_duration = some 5000;
}

-- A snack without a title has its message as the title, a button to close it and a countdown.
snack_shows :
    notification_view {H = ℕ} (codes "Dismiss") (simple_props (λ id. id) a_snack) ≡ record {
      variant = some notification_variant;
      title = some (codes "saved");
      children = none;
      on_close = some 3;
      side_actions = none;
      bottom_actions = some (record { dismiss = some (codes "Dismiss", 3); action = none });
      bottom = countdown 5000 Severity.info;
    }
unfolding notification_view simple_props
snack_shows = refl

-- Without a duration a notification shows the number 0.
zero_shows : bottom_of Severity.info (some 0) ≡ zero_text
unfolding bottom_of
zero_shows = refl

-- A dialog with a label to submit, and without the functions of its form.
abbrev form_dialog : AlertDialogProps Str
form_dialog = record {
  title = some (codes "Sure?");
  title_id = some (codes "title");
  content = none;
  content_id = none;
  color = none;
  title_icon_color = none;
  title_icon = some no_icon;
  labels = record { cancel_label = []; confirm_label = []; submit_label = codes "OK" };
  has_handle_submit = true;
  has_submit_valid = false;
  secondary_action = none;
}

form_required : alert_dialog true form_dialog false ≡ none
unfolding alert_dialog
form_required = refl

abbrev marks_of : Option (AlertDialogView Str) → Option (Bool × TitleMark Str × Option Str)
marks_of none = none
marks_of (some v) = some (v.is_form, v.mark, v.heading_id)

-- In production it is shown without a form, and, as it has no icon, with an empty circle.
form_missing :
    marks_of (alert_dialog false form_dialog false)
    ≡ some (false, node_mark AlertDialogColor.warning none, none)
unfolding alert_dialog
form_missing = refl

collapsed : sidebar_run new_sidebar (toggle ∷ add_nodes ∷ []) ≡ none
unfolding sidebar_run
collapsed = refl

five_dialogs : length (layout_view (λ n. []) none new_sidebar (codes "chat")).dialogs ≡ 5
unfolding layout_view
five_dialogs = refl

no_debug :
    (main_layout false initial_state (codes "setup") none not_given).end_view ≡ EndView.nothing
unfolding main_layout
no_debug = refl

-- An icon with the default color has no rule.
default_icon : (title_icon none none).color ≡ css_inherit
unfolding title_icon
default_icon = refl

warning_icon : (title_icon none (some warning)).color ≡ palette_main warning
unfolding title_icon
warning_icon = refl

-- A contained button has one rule for its shadows and one for its colors, and a text button its own.
contained_styles :
    button_styles contained_circle info
    ≡ shadow (shadow_style info) ∷ coloring (color_style (palette_color info)) ∷ []
unfolding button_styles
contained_styles = refl

text_button : button_styles text info ≡ texting text_style ∷ []
unfolding button_styles
text_button = refl

one_chip : length (chip_styles filled info) ≡ 1
unfolding chip_styles
one_chip = refl

one_slider : length (slider_styles none none) ≡ 1
unfolding slider_styles
one_slider = refl

one_bar : length (progress_styles info) ≡ 1
unfolding progress_styles
one_bar = refl
