-- ===== src/Components/AlertDialog.antt =====
-- src/frontend/src/components/mui/dialog: an alert dialog with the hook that opens it. The handlers of its
-- buttons are its owner's, and react-hook-form validates its form: what they give is part of an event.
pub mod Locks
pub mod View
use Prim.Native.Nat.{zero, suc, ◌<◌, ◌≤◌, max, min}
use swarm_engine.Prelude.{
  ℕ, ◌+◌, ◌-◌, ◌*◌, ◌/◌, ◌%◌, String, ◌≡◌, refl, sym, ap, ap₂, subst, ◌∙◌, fun_ext, ◌≢◌, ◌↔◌, ◌⊎◌,
  inl, inr, Bool, true, false, not, ◌&&◌, ◌||◌, Option, none, some, List, [], ◌∷◌, ◌++◌, map,
  append-nil, append_assoc, arith, ltb, leb, ◌==◌, if◌then◌else◌, ==_iff, ==_refl, Bool-cases,
  Option-cases, some_inj, lt→ltb, ge→ltb, ltb→lt, ltb→ge, length, get_elem?, take, drop,
  length-append, take-append-drop, length-drop, take-length-append, drop-append_add, last?, init,
  last?-append, init-append, init-append-last, any, all, filter, find, find_index, length-map,
}
use swarm_engine.Text.{Str, truthy}

-- A value that a handler gives, as far as the dialog reads it: `false`, `null`, an object with its
-- `closeDialog`, or another.
pub data ActionValue : Type 0 where
  false_value null_value other_value : ActionValue
  object_value : Option Bool → ActionValue

-- `handleActionResult`; `none` is an exception, as `null` is an object too.
unfoldable handle_action_result : ActionValue → Option Bool
handle_action_result false_value = some false
handle_action_result null_value = none
handle_action_result other_value = some true
handle_action_result (object_value none) = some true
handle_action_result (object_value (some b)) = some b

-- What a call of a handler gives.
pub data HandlerResult : Type 0 where
  returned : ActionValue → HandlerResult
  promised thrown : HandlerResult

-- What a promise becomes.
pub data Settlement : Type 0 where
  resolved : ActionValue → Settlement
  rejected : Settlement

-- What the dialog waits for: the promise of an action, or the submission of its form.
pub data Pending : Type 0 where
  nothing an_action a_form : Pending

-- `closed_calls` counts the calls of the owner's `onClose`.
pub record DialogState : Type 0 where
  pub is_open : Bool
  pub loading : Bool
  pub pending : Pending
  pub closed_calls : ℕ

abbrev pub new_dialog : DialogState
new_dialog = record { is_open = false; loading = false; pending = nothing; closed_calls = 0 }

-- `onClose`, as `useAlertDialog` passes it
unfoldable on_close : DialogState → DialogState
on_close s = record s { is_open = false; closed_calls = s.closed_calls + 1 }

abbrev close_if : Option Bool → DialogState → DialogState
close_if none s = s
close_if (some false) s = s
close_if (some true) s = on_close s

-- `pipeHandlers`, up to the promise of the handler
unfoldable pipe_handlers : HandlerResult → DialogState → DialogState
unfolding handle_action_result on_close
pipe_handlers (returned v) s = if s.loading then s else close_if (handle_action_result v) s
pipe_handlers promised s = if s.loading then s else record s { loading = true; pending = an_action }
pipe_handlers thrown s = if s.loading then s else record s { loading = false }

abbrev settled : Settlement → DialogState → DialogState
settled (resolved v) s = close_if (handle_action_result v) s
settled rejected s = s

-- The rest of `pipeHandlers`, and of the callback for a valid form: the dialog stops loading, and closes.
unfoldable settle : Settlement → DialogState → DialogState
unfolding handle_action_result on_close
settle r s = settled r (record s { loading = false; pending = nothing })

-- `onSubmit` of the form
unfoldable submit_form : DialogState → DialogState
submit_form s = if s.loading then s else record s { loading = true; pending = a_form }

-- The callback for an invalid form
unfoldable invalid_form : DialogState → DialogState
invalid_form s = record s { loading = false; pending = nothing }

-- `safeOnClose`
unfoldable safe_on_close : DialogState → DialogState
unfolding on_close
safe_on_close s = if s.loading then s else on_close s

-- What happens to a dialog: the two actions of the hook, a button with what its handler gives, the end
-- of an action, the form with the end of a valid or an invalid one, and a wish to close.
pub data DialogEvent : Type 0 where
  open_dialog close_dialog : DialogEvent
  press : HandlerResult → DialogEvent
  action_ends : Settlement → DialogEvent
  submit : DialogEvent
  form_ends : Settlement → DialogEvent
  form_invalid : DialogEvent
  dismiss : DialogEvent

abbrev is_action : Pending → Bool
is_action an_action = true
is_action _ = false

abbrev is_form : Pending → Bool
is_form a_form = true
is_form _ = false

abbrev pub is_pending : Pending → Bool
is_pending nothing = false
is_pending _ = true

-- One event. The end of what the dialog does not wait for changes nothing.
unfoldable dialog_step : DialogState → DialogEvent → DialogState
unfolding pipe_handlers settle submit_form invalid_form safe_on_close
dialog_step s open_dialog = record s { is_open = true }
dialog_step s close_dialog = record s { is_open = false }
dialog_step s (press r) = pipe_handlers r s
dialog_step s (action_ends r) = if is_action s.pending then settle r s else s
dialog_step s submit = submit_form s
dialog_step s (form_ends r) = if is_form s.pending then settle r s else s
dialog_step s form_invalid = if is_form s.pending then invalid_form s else s
dialog_step s dismiss = safe_on_close s

unfoldable pub dialog_run : DialogState → List DialogEvent → DialogState
unfolding dialog_step
dialog_run s [] = s
dialog_run s (e ∷ es) = dialog_run (dialog_step s e) es

-- The labels that the owner gives.
pub record DialogLabels : Type 0 where
  pub cancel_label : Str
  pub confirm_label : Str
  pub submit_label : Str

pub data ButtonKey : Type 0 where
  cancel confirm submit_button : ButtonKey

pub record ButtonProps : Type 0 where
  pub key : ButtonKey
  pub label : Str
  pub loading : Bool
  pub full_width : Bool

abbrev button_if : ButtonKey → Str → Bool → List ButtonProps
button_if k label loading =
    if truthy label
    then record { key = k; label = label; loading = loading; full_width = false } ∷ []
    else []

-- A button that stands alone takes the full width.
abbrev widened : List ButtonProps → List ButtonProps
widened (b ∷ []) = record b { full_width = true } ∷ []
widened bs = bs

-- `actionButtonPropsList`, as it is shown
unfoldable action_buttons : DialogLabels → Bool → List ButtonProps
action_buttons l loading = widened (
    button_if cancel l.cancel_label loading
    ++ (button_if confirm l.confirm_label loading
        ++ button_if submit_button l.submit_label loading))
