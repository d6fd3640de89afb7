-- ===== src/Theme/Alert.antt =====
-- src/frontend/src/themes/components/feedback/alert.tsx: the colors, the icons and the order of the parts
-- of an alert.
use swarm_engine.Prelude.{ℕ, Bool, true, false, Option, none, some}
use swarm_engine.Text.{Str}
use swarm_engine.Theme.{ColorName, error, warning, info, success, palette_color, palette_texts}

pub data AlertVariant : Type 0 where
  standard outlined notification : AlertVariant

pub data Severity : Type 0 where
  error_alert warning_alert info_alert success_alert : Severity

abbrev color_of : Severity → ColorName
color_of error_alert = error
color_of warning_alert = warning
color_of info_alert = info
color_of success_alert = success

-- `iconMapping`
pub data AlertIcon : Type 0 where
  info_circle circle_check alert_circle : AlertIcon

abbrev icon_mapping : Severity → AlertIcon
icon_mapping info_alert = info_circle
icon_mapping success_alert = circle_check
icon_mapping warning_alert = alert_circle
icon_mapping error_alert = alert_circle

-- The colors that the rules of the root give; a notification has a rule without colors.
pub record AlertColors : Type 0 where
  pub color : Option Str
  pub background : Option Str
  pub border : Option Str

abbrev or_main : Bool → Option Str → Option Str → Option Str
or_main true a b = a
or_main false a b = b

abbrev is_info : Severity → Bool
is_info info_alert = true
is_info _ = false

unfoldable alert_colors : AlertVariant → Severity → Option AlertColors
alert_colors outlined s = some (record {
  color = palette_texts.text_secondary;
  background = palette_texts.background_default;
  border = palette_texts.divider;
})
alert_colors standard s = some (record {
  color = or_main (is_info s) palette_texts.text_disabled (palette_color (color_of s)).main;
  background =
      or_main (is_info s) palette_texts.background_area (palette_color (color_of s)).lighter;
  border = none;
})
alert_colors notification s = none

-- The parts of an alert, and their order in a notification; the others stand in the order of the markup.
pub data AlertPart : Type 0 where
  icon message action : AlertPart

abbrev notification_order : AlertPart → ℕ
notification_order icon = 1
notification_order action = 2
notification_order message = 3

pub record AlertLook : Type 0 where
  pub colors : Option AlertColors
  pub icon : AlertIcon
  pub order : AlertPart → Option ℕ

abbrev order_of : AlertVariant → AlertPart → Option ℕ
order_of notification p = some (notification_order p)
order_of _ p = none

unfoldable alert_look : AlertVariant → Severity → AlertLook
unfolding alert_colors
alert_look v s = record { colors = alert_colors v s; icon = icon_mapping s; order = order_of v }
