-- ===== src/Components/AlertDialog/View.antt =====
-- What `AlertDialog` of src/frontend/src/components/mui/dialog/alert-dialog.tsx shows: its heading, its
-- content and its buttons. `N` is what React renders; a node that is false counts as absent.
use swarm_engine.Prelude.{
  ◌≡◌, refl, Bool, true, false, not, ◌&&◌, ◌||◌, Option, none, some, List, [], ◌∷◌, if◌then◌else◌,
}
use swarm_engine.Text.{Str, truthy}
use swarm_engine.Components.AlertDialog.{DialogLabels, ButtonProps, action_buttons}

pub data AlertDialogColor : Type 0 where
  primary secondary error info success warning : AlertDialogColor

pub data SlotIcon : Type 0 where
  info_circle alert_circle circle_check : SlotIcon

-- `COLOR_ICON_MAP`
unfoldable color_icon : AlertDialogColor → SlotIcon
color_icon primary = info_circle
color_icon secondary = info_circle
color_icon info = info_circle
color_icon error = alert_circle
color_icon warning = alert_circle
color_icon success = circle_check

-- `titleIcon`: a falsy value, `true`, `'form'`, or a node.
pub data TitleIconProp (N : Type 0) : Type 0 where
  no_icon default_icon form_icon : TitleIconProp N
  custom_icon : N → TitleIconProp N

-- `AlertDialogProps`; of the functions of a form, whether they are given.
pub record AlertDialogProps (N : Type 0) : Type 0 where
  pub title : Option N
  pub title_id : Option Str
  pub content : Option N
  pub content_id : Option Str
  pub color : Option AlertDialogColor
  pub title_icon_color : Option AlertDialogColor
  pub title_icon : Option (TitleIconProp N)
  pub labels : DialogLabels
  pub has_handle_submit : Bool
  pub has_submit_valid : Bool
  pub secondary_action : Option N

-- What stands in front of the heading: the icon of a form, or a circle in a color with an icon, with a
-- node, or with nothing.
pub data TitleMark (N : Type 0) : Type 0 where
  form_mark : TitleMark N
  slot_mark : AlertDialogColor → SlotIcon → TitleMark N
  node_mark : AlertDialogColor → Option N → TitleMark N

-- The mark and the title in the heading, with the id that the heading has, the title in the content with
-- its own id, and the rest.
pub record AlertDialogView (N : Type 0) : Type 0 where
  pub labelled_by : Option Str
  pub described_by : Option Str
  pub is_form : Bool
  pub mark : TitleMark N
  pub heading_id : Option Str
  pub heading : Option N
  pub subtitle : Option (Option N × Option Str)
  pub content : Option N × Option Str
  pub actions : Option (Option N × List ButtonProps)

abbrev or_else : {A : Type 0} → A → Option A → A
or_else d none = d
or_else d (some a) = a

-- `(!SlotIcon && titleId) || undefined`
abbrev heading_id_of : Option SlotIcon → Option Str → Option Str
heading_id_of (some icon) title_id = none
heading_id_of none none = none
heading_id_of none (some t) = if truthy t then some t else none

abbrev truthy_icon : {N : Type 0} → TitleIconProp N → Bool
truthy_icon no_icon = false
truthy_icon _ = true

module _ {N : Type 0} where
  unfoldable title_mark : TitleIconProp N → AlertDialogColor → SlotIcon → TitleMark N
  title_mark form_icon color icon = form_mark
  title_mark default_icon color icon = slot_mark color icon
  title_mark no_icon color icon = node_mark color none
  title_mark (custom_icon n) color icon = node_mark color (some n)

  -- With a label to submit, the functions of a form have to be given, which is checked in development.
  unfoldable lacks_form : AlertDialogProps N → Bool
  lacks_form p = truthy p.labels.submit_label && (not p.has_handle_submit || not p.has_submit_valid)

  -- Whether `formProps` is set
  unfoldable has_form : AlertDialogProps N → Bool
  has_form p = truthy p.labels.submit_label && (p.has_handle_submit && p.has_submit_valid)

  -- `DialogActions`: the owner's own node stands in front of the buttons, and only with them.
  unfoldable dialog_actions : Option N → List ButtonProps → Option (Option N × List ButtonProps)
  dialog_actions own [] = none
  dialog_actions own (b ∷ bs) = some (own, b ∷ bs)

  -- What the component returns.
  unfoldable dialog_view : AlertDialogProps N → Bool → AlertDialogView N
  unfolding color_icon title_mark has_form dialog_actions
  dialog_view p loading =
      let icon = color_icon (or_else primary p.color) in
      let title_icon = or_else default_icon p.title_icon in
      record {
        labelled_by = p.title_id;
        described_by = p.content_id;
        is_form = has_form p;
        mark = title_mark title_icon (or_else warning p.title_icon_color) icon;
        heading_id = heading_id_of (some icon) p.title_id;
        heading = if truthy_icon title_icon then none else p.title;
        subtitle = if truthy_icon title_icon then some (p.title, p.title_id) else none;
        content = (p.content, p.content_id);
        actions = dialog_actions p.secondary_action (action_buttons p.labels loading);
      }

  -- `AlertDialog`, in development or not; nothing is an exception.
  unfoldable pub alert_dialog : Bool → AlertDialogProps N → Bool → Option (AlertDialogView N)
  unfolding lacks_form dialog_view
  alert_dialog dev p loading = if dev && lacks_form p then none else some (dialog_view p loading)

  -- The id of the element that shows the title: that of the subtitle, or else of the heading.
  abbrev id_of : Option (Option N × Option Str) → Option Str → Option Str
  id_of none heading_id = heading_id
  id_of (some (title, id)) heading_id = id

  abbrev shown_id : AlertDialogView N → Option Str
  shown_id v = id_of v.subtitle v.heading_id

  id_of-if :
      (b : Bool) (title : Option N) (id h : Option Str)
      → id_of (if b then some (title, id) else none) h ≡ (if b then id else h)
  id_of-if true title id h = refl
  id_of-if false title id h = refl

  -- The element that shows the title has the id that the dialog is labelled by only if the dialog has an
  -- icon: without one the title stands in the heading, which has no id.
  labelled_with_icon :
      (p : AlertDialogProps N) (loading : Bool)
      → shown_id (dialog_view p loading) ≡ (
          if truthy_icon (or_else default_icon p.title_icon)
          then (dialog_view p loading).labelled_by
          else none)
  unfolding dialog_view
  labelled_with_icon p loading =
      id_of-if (truthy_icon (or_else default_icon p.title_icon)) p.title p.title_id none
