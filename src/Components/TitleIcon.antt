-- ===== src/Components/TitleIcon.antt =====
-- src/frontend/src/components/mui/title-icon/title-icon.tsx: the classes and the styles of an icon in
-- front of a title. `composeClasses` and the rest of the style engine are libraries.
use swarm_engine.Prelude.{
  ℕ, Bool, true, false, Option, none, some, List, [], ◌∷◌, map, if◌then◌else◌,
}
use swarm_engine.Text.{Str, codes}

pub data IconVariant : Type 0 where
  circle square : IconVariant

pub data IconColor : Type 0 where
  inherit default primary secondary error info success warning : IconColor

-- `COLORS`
abbrev icon_colors : List IconColor
icon_colors = inherit ∷ primary ∷ secondary ∷ error ∷ info ∷ success ∷ warning ∷ []

unfoldable color_eq : IconColor → IconColor → Bool
color_eq inherit inherit = true
color_eq default default = true
color_eq primary primary = true
color_eq secondary secondary = true
color_eq error error = true
color_eq info info = true
color_eq success success = true
color_eq warning warning = true
color_eq _ _ = false

-- The value of the CSS property `color`: inherited, the color of text, or the main color of a palette.
pub data CssColor : Type 0 where
  css_inherit text_primary : CssColor
  palette_main : IconColor → CssColor

-- The style of a color's rule.
abbrev rule_color : IconColor → CssColor
rule_color inherit = css_inherit
rule_color default = text_primary
rule_color c = palette_main c

-- The rules of the root, one for each of the colors; the style without a rule inherits.
abbrev color_rules : List (IconColor × CssColor)
color_rules = map (λ c. (c, rule_color c)) icon_colors

-- The rules that apply stand behind the style of the root, so the last one counts.
unfoldable applied_color : List (IconColor × CssColor) → IconColor → CssColor → CssColor
unfolding color_eq
applied_color [] c css = css
applied_color ((d, rule) ∷ rules) c css = applied_color rules c (if color_eq d c then rule else css)

-- The class of a color, and that of a variant.
abbrev color_class : IconColor → Str
color_class inherit = codes "colorInherit"
color_class default = codes "colorDefault"
color_class primary = codes "colorPrimary"
color_class secondary = codes "colorSecondary"
color_class error = codes "colorError"
color_class info = codes "colorInfo"
color_class success = codes "colorSuccess"
color_class warning = codes "colorWarning"

abbrev variant_class : IconVariant → Str
variant_class circle = codes "variantCircle"
variant_class square = codes "variantSquare"

-- The slots of `useUtilityClasses`, each with its names.
abbrev icon_slots : IconVariant → IconColor → List (Str × List Str)
icon_slots v c =
    (codes "root", codes "root" ∷ variant_class v ∷ color_class c ∷ [])
    ∷ (codes "outlineOuter", codes "outlineOuter" ∷ [])
    ∷ (codes "outlineInner", codes "outlineInner" ∷ [])
    ∷ []

-- The radius of an outline: a half of its size, or a number of hundredths of rem or of em.
pub data Radius : Type 0 where
  half : Radius
  rem_hundredths em_hundredths : ℕ → Radius

abbrev outer_radius : IconVariant → Radius
outer_radius circle = half
outer_radius square = rem_hundredths 38

abbrev inner_radius : IconVariant → Radius
inner_radius circle = half
inner_radius square = em_hundredths 25

pub record TitleIconView : Type 0 where
  pub slots : List (Str × List Str)
  pub color : CssColor
  pub outer : Radius
  pub inner : Radius

abbrev or_default : {A : Type 0} → A → Option A → A
or_default d none = d
or_default d (some a) = a

-- `TitleIcon`; the variant and the color have defaults.
unfoldable pub title_icon : Option IconVariant → Option IconColor → TitleIconView
unfolding applied_color
title_icon variant color =
    let v = or_default circle variant in
    let c = or_default default color in
    record {
      slots = icon_slots v c;
      color = applied_color color_rules c css_inherit;
      outer = outer_radius v;
      inner = inner_radius v;
    }
