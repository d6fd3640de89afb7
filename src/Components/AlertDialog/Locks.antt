-- ===== src/Components/AlertDialog/Locks.antt =====
-- The loading state of the alert dialog, and when the dialog closes.
use swarm_engine.Prelude.{
  ℕ, ◌≡◌, refl, sym, subst, ◌∙◌, inl, inr, Bool, true, false, Option, none, some, List, [], ◌∷◌,
  if◌then◌else◌, Bool-cases, all,
}
use swarm_engine.Components.AlertDialog.{
  ActionValue, handle_action_result, returned, promised, thrown, Settlement, resolved, rejected,
  nothing, an_action, a_form, DialogState, new_dialog, on_close, close_if, pipe_handlers, settle,
  submit_form, invalid_form, safe_on_close, DialogEvent, open_dialog, close_dialog, press,
  action_ends, submit, form_ends, form_invalid, dismiss, is_action, is_form, is_pending,
  dialog_step, dialog_run,
}

-- The dialog shows that it loads exactly while it waits for a handler.
abbrev IsInStep : DialogState → Type 0
IsInStep s = s.loading ≡ is_pending s.pending

close_if-IsInStep : (o : Option Bool) (s : DialogState) → IsInStep s → IsInStep (close_if o s)
unfolding on_close
close_if-IsInStep none s h = h
close_if-IsInStep (some false) s h = h
close_if-IsInStep (some true) s h = h

settle-IsInStep : (r : Settlement) (s : DialogState) → IsInStep (settle r s)
unfolding settle
settle-IsInStep (resolved v) s =
    close_if-IsInStep (handle_action_result v) (record s { loading = false; pending = nothing })
      refl
settle-IsInStep rejected s = refl

-- A choice between two states that are in step is in step.
if-IsInStep :
    (b : Bool) (s t : DialogState) → IsInStep s → IsInStep t → IsInStep (if b then s else t)
if-IsInStep true s t h k = h
if-IsInStep false s t h k = k

-- A state that is entered only while the dialog does not load.
guard-IsInStep :
    (s t : DialogState)
    → IsInStep s
    → (s.loading ≡ false → IsInStep t)
    → IsInStep (if s.loading then s else t)
guard-IsInStep s t h k = elim (Bool-cases s.loading) [
  | inl e ↦ subst (λ b. IsInStep (if b then s else t)) (sym e) h
  | inr e ↦ subst (λ b. IsInStep (if b then s else t)) (sym e) (k e)
]

step-IsInStep : (s : DialogState) (e : DialogEvent) → IsInStep s → IsInStep (dialog_step s e)
unfolding dialog_step pipe_handlers submit_form invalid_form safe_on_close on_close
step-IsInStep s open_dialog h = h
step-IsInStep s close_dialog h = h
step-IsInStep s (press (returned v)) h =
    guard-IsInStep s (close_if (handle_action_result v) s) h
      λ k. close_if-IsInStep (handle_action_result v) s h
step-IsInStep s (press promised) h =
    guard-IsInStep s (record s { loading = true; pending = an_action }) h λ k. refl
step-IsInStep s (press thrown) h = guard-IsInStep s (record s { loading = false }) h λ k. sym k ∙ h
step-IsInStep s (action_ends r) h =
    if-IsInStep (is_action s.pending) (settle r s) s (settle-IsInStep r s) h
step-IsInStep s submit h =
    guard-IsInStep s (record s { loading = true; pending = a_form }) h λ k. refl
step-IsInStep s (form_ends r) h =
    if-IsInStep (is_form s.pending) (settle r s) s (settle-IsInStep r s) h
step-IsInStep s form_invalid h = if-IsInStep (is_form s.pending) (invalid_form s) s refl h
step-IsInStep s dismiss h = guard-IsInStep s (on_close s) h λ k. h

run-IsInStep : (s : DialogState) (es : List DialogEvent) → IsInStep s → IsInStep (dialog_run s es)
unfolding dialog_run
run-IsInStep s [] h = h
run-IsInStep s (e ∷ es) h = run-IsInStep (dialog_step s e) es (step-IsInStep s e h)

-- Whatever happens to a new dialog, it loads exactly while it waits for an action or for its form: it
-- is never locked by a handler that has ended, also if that one threw, and never open to a second one.
pub loading_while_pending :
    (es : List DialogEvent)
    → (dialog_run new_dialog es).loading ≡ is_pending (dialog_run new_dialog es).pending
loading_while_pending es = run-IsInStep new_dialog es refl

-- The values that leave a dialog open: `false`, an object whose `closeDialog` is `false`, and `null`.
abbrev leaves_open : ActionValue → Bool
leaves_open ActionValue.false_value = true
leaves_open ActionValue.null_value = true
leaves_open (ActionValue.object_value (some false)) = true
leaves_open _ = false

-- The events that do not ask to close: nobody closes or dismisses the dialog, and each handler throws,
-- is rejected, or gives a value that leaves the dialog open.
abbrev refuses : DialogEvent → Bool
refuses close_dialog = false
refuses dismiss = false
refuses (press (returned v)) = leaves_open v
refuses (action_ends (resolved v)) = leaves_open v
refuses (form_ends (resolved v)) = leaves_open v
refuses _ = true

-- The dialog is open, and its owner was not told of a close since there were `n` calls.
abbrev IsOpen : ℕ → DialogState → Type 0
IsOpen n s = (s.is_open ≡ true) × (s.closed_calls ≡ n)

kept_open :
    (v : ActionValue) (s : DialogState)
    → leaves_open v ≡ true
    → close_if (handle_action_result v) s ≡ s
unfolding handle_action_result
kept_open ActionValue.false_value s h = refl
kept_open ActionValue.null_value s h = refl
kept_open ActionValue.other_value s h = cc
kept_open (ActionValue.object_value none) s h = cc
kept_open (ActionValue.object_value (some true)) s h = cc
kept_open (ActionValue.object_value (some false)) s h = refl

if-IsOpen :
    {n : ℕ} (b : Bool) (s t : DialogState) → IsOpen n s → IsOpen n t → IsOpen n (if b then s else t)
if-IsOpen true s t h k = h
if-IsOpen false s t h k = k

settle-IsOpen :
    {n : ℕ} (v : ActionValue) (s : DialogState)
    → leaves_open v ≡ true
    → IsOpen n s
    → IsOpen n (settle (resolved v) s)
unfolding settle
settle-IsOpen {n} v s k h =
    subst (IsOpen n) (sym (kept_open v (record s { loading = false; pending = nothing }) k)) h

step-IsOpen :
    (n : ℕ) (s : DialogState) (e : DialogEvent)
    → refuses e ≡ true
    → IsOpen n s
    → IsOpen n (dialog_step s e)
unfolding dialog_step pipe_handlers submit_form invalid_form settle
step-IsOpen n s open_dialog r h = (refl, h.1)
step-IsOpen n s close_dialog r h = cc
step-IsOpen n s (press (returned v)) r h =
    if-IsOpen s.loading s (close_if (handle_action_result v) s) h
      (subst (IsOpen n) (sym (kept_open v s r)) h)
step-IsOpen n s (press promised) r h =
    if-IsOpen s.loading s (record s { loading = true; pending = an_action }) h h
step-IsOpen n s (press thrown) r h = if-IsOpen s.loading s (record s { loading = false }) h h
step-IsOpen n s (action_ends (resolved v)) r h =
    if-IsOpen (is_action s.pending) (settle (resolved v) s) s (settle-IsOpen v s r h) h
step-IsOpen n s (action_ends rejected) r h =
    if-IsOpen (is_action s.pending) (settle rejected s) s h h
step-IsOpen n s submit r h =
    if-IsOpen s.loading s (record s { loading = true; pending = a_form }) h h
step-IsOpen n s (form_ends (resolved v)) r h =
    if-IsOpen (is_form s.pending) (settle (resolved v) s) s (settle-IsOpen v s r h) h
step-IsOpen n s (form_ends rejected) r h = if-IsOpen (is_form s.pending) (settle rejected s) s h h
step-IsOpen n s form_invalid r h = if-IsOpen (is_form s.pending) (invalid_form s) s h h
step-IsOpen n s dismiss r h = cc

run-IsOpen :
    (n : ℕ) (s : DialogState) (es : List DialogEvent)
    → IsOpen n s
    → all refuses es ≡ true
    → IsOpen n (dialog_run s es)
unfolding dialog_run
run-IsOpen n s [] h k = h
run-IsOpen n s (e ∷ es) h k = elim (Bool-cases (refuses e)) [
  | inl r ↦ run-IsOpen n (dialog_step s e) es (step-IsOpen n s e r h) (rw r at k)
  | inr r ↦ absurd (cc (rw r at k))
]

-- An open dialog stays open, and its owner is not told of a close, through any sequence of events of
-- which none asks to close.
pub refused_stays_open :
    (s : DialogState) (es : List DialogEvent)
    → s.is_open ≡ true
    → all refuses es ≡ true
    → ((dialog_run s es).is_open ≡ true) × ((dialog_run s es).closed_calls ≡ s.closed_calls)
refused_stays_open s es o r = run-IsOpen s.closed_calls s es (o, refl) r
