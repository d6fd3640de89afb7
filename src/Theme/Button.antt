-- ===== src/Theme/Button.antt =====
-- src/frontend/src/themes/components/form/button.ts: the rules for the colors of a button, and its sizes.
-- A length is a number of 24ths of a rem.
use swarm_engine.Prelude.{
  ℕ, ◌*◌, ◌/◌, Bool, true, false, ◌&&◌, Option, none, some, List, [], ◌∷◌, ◌++◌, map, filter,
}
use swarm_engine.Text.{Str, codes}
use swarm_engine.Theme.{
  grey, shade, PaletteColor, ColorName, brand_color, primary, secondary, error, info, success,
  warning, palette_color, palette_texts, button_shade_default, button_shade_active_light,
  button_shade_active_dark, button_shade_brand, button_shade_error,
}

pub data ButtonVariant : Type 0 where
  contained contained_rounded contained_square contained_circle text outlined : ButtonVariant

-- `COLORS`
abbrev colors : List ColorName
colors = brand_color ∷ primary ∷ secondary ∷ error ∷ info ∷ success ∷ warning ∷ []

abbrev contained_variants : List ButtonVariant
contained_variants = contained ∷ contained_rounded ∷ contained_square ∷ contained_circle ∷ []

-- The shadows of a rule: of a button as it is, under the pointer, pressed and disabled.
pub record ShadowStyle : Type 0 where
  pub box_shadow : Str
  pub hover_shadow : Str
  pub active_shadow : Str
  pub disabled_shadow : Str

-- The colors of a rule.
pub record ColorStyle : Type 0 where
  pub color : Option Str
  pub border_color : Option Str
  pub background : Option Str
  pub hover_background : Option Str
  pub active_background : Option Str
  pub disabled_color : Option Str
  pub disabled_border : Option Str
  pub disabled_background : Option Str

-- The style of a text button, which takes its font and its color from around it.
pub record TextStyle : Type 0 where
  pub font_family : Str
  pub font_weight : Str
  pub font_size : Str
  pub line_height : Str
  pub color : Str
  pub background : Str
  pub hover_background : Str

pub data ButtonStyle : Type 0 where
  shadow : ShadowStyle → ButtonStyle
  coloring : ColorStyle → ButtonStyle
  texting : TextStyle → ButtonStyle

-- A rule of the style engine: it applies to the buttons with these properties.
pub record ButtonRule : Type 0 where
  pub variant : ButtonVariant
  pub color : ColorName
  pub style : ButtonStyle

-- `colorShadowMap`
abbrev color_shadow_map : ColorName → Option Str
color_shadow_map primary = some button_shade_active_dark
color_shadow_map secondary = some button_shade_active_light
color_shadow_map brand_color = some button_shade_brand
color_shadow_map error = some button_shade_error
color_shadow_map _ = none

-- `colorShadowMap[color] || colorShadowMap.secondary`
abbrev active_shadow_of : Option Str → Str
active_shadow_of none = button_shade_active_light
active_shadow_of (some s) = s

abbrev pub shadow_style : ColorName → ShadowStyle
shadow_style c = record {
  box_shadow = button_shade_default;
  hover_shadow = button_shade_default;
  active_shadow = active_shadow_of (color_shadow_map c);
  disabled_shadow = button_shade_default;
}

abbrev pub color_style : PaletteColor → ColorStyle
color_style p = record {
  color = p.contrast_text;
  border_color = p.darker;
  background = p.main;
  hover_background = p.light;
  active_background = p.main;
  disabled_color = palette_texts.text_disabled;
  disabled_border = p.lighter;
  disabled_background = p.lighter;
}

abbrev flat : {A : Type 0} → List (List A) → List A
flat [] = []
flat (xs ∷ xss) = xs ++ flat xss

-- `containedBoxShadowVariants` and `containedColorVariants`
abbrev shadow_rules : List ButtonRule
shadow_rules = flat (
    map
      (λ c.
        map (λ v. record { variant = v; color = c; style = shadow (shadow_style c) })
          contained_variants)
      colors)

abbrev color_rules : List ButtonRule
color_rules = flat (
    map
      (λ c.
        map
          (λ v. record { variant = v; color = c; style = coloring (color_style (palette_color c)) })
          contained_variants)
      colors)

unfoldable variant_eq : ButtonVariant → ButtonVariant → Bool
variant_eq contained contained = true
variant_eq contained_rounded contained_rounded = true
variant_eq contained_square contained_square = true
variant_eq contained_circle contained_circle = true
variant_eq text text = true
variant_eq outlined outlined = true
variant_eq _ _ = false

unfoldable pub color_eq : ColorName → ColorName → Bool
color_eq brand_color brand_color = true
color_eq primary primary = true
color_eq secondary secondary = true
color_eq error error = true
color_eq info info = true
color_eq success success = true
color_eq warning warning = true
color_eq _ _ = false

-- The rule for `buttonClasses.text`
abbrev pub text_style : TextStyle
text_style = record {
  font_family = codes "inherit";
  font_weight = codes "inherit";
  font_size = codes "inherit";
  line_height = codes "inherit";
  color = codes "inherit";
  background = codes "transparent";
  hover_background = codes "transparent";
}

abbrev text_styles : ButtonVariant → List ButtonStyle
text_styles text = texting text_style ∷ []
text_styles _ = []

-- The styles that the root gives a button: those of its variants, and the one for text.
unfoldable pub button_styles : ButtonVariant → ColorName → List ButtonStyle
unfolding variant_eq color_eq
button_styles v c =
    map (λ (r : ButtonRule). r.style)
      (filter (λ (r : ButtonRule). variant_eq r.variant v && color_eq r.color c)
        (shadow_rules ++ color_rules))
    ++ text_styles v

pub data ButtonSize : Type 0 where
  small medium large : ButtonSize

-- `INPUT_SIZE_REM_MAP`, `SIZE_PADDING_INLINE_REM_MAP` and `INPUT_ICON_SIZE_REM_MAP`
abbrev size_rem_map : ButtonSize → ℕ
size_rem_map small = 54
size_rem_map medium = 66
size_rem_map large = 84

abbrev padding_inline_rem_map : ButtonSize → ℕ
padding_inline_rem_map small = 21
padding_inline_rem_map medium = 27
padding_inline_rem_map large = 36

abbrev icon_size_rem_map : ButtonSize → ℕ
icon_size_rem_map small = 24
icon_size_rem_map medium = 30
icon_size_rem_map large = 36

-- The height of a button: a length, or that of a line of text.
pub data Height : Type 0 where
  length_of : ℕ → Height
  line_height : Height

-- The radius: the one of all inputs, a length, or a half of the button.
pub data Radius : Type 0 where
  input_radius half : Radius
  radius_of : ℕ → Radius

-- The text style whose font a button takes.
pub data ButtonFont : Type 0 where
  subtitle2 h3 : ButtonFont

abbrev font_of : ButtonSize → ButtonFont
font_of small = subtitle2
font_of _ = h3

pub record SizeStyle : Type 0 where
  pub min_width : ℕ
  pub max_width : Option ℕ
  pub height : Height
  pub padding_inline : ℕ
  pub radius : Radius
  pub font : ButtonFont
  pub icon : ℕ

-- `MIN_WIDTH_MULTIPLY` is 4 / 3.
abbrev base_size : ButtonSize → SizeStyle
base_size s = record {
  min_width = size_rem_map s * 4 / 3;
  max_width = none;
  height = length_of (size_rem_map s);
  padding_inline = padding_inline_rem_map s;
  radius = input_radius;
  font = font_of s;
  icon = icon_size_rem_map s;
}

abbrev squared : ButtonSize → Radius → SizeStyle
squared s r = record (base_size s) {
  min_width = size_rem_map s;
  max_width = some (size_rem_map s);
  padding_inline = 0;
  radius = r;
}

-- `sizeSmall`, `sizeMedium` and `sizeLarge`, with what they change for a variant
unfoldable size_style : ButtonVariant → ButtonSize → SizeStyle
size_style text s = record (base_size s) { min_width = 0; height = line_height; padding_inline = 0 }
size_style contained_rounded s = record (base_size s) { radius = radius_of (size_rem_map s / 2) }
size_style contained_square s = squared s input_radius
size_style contained_circle s = squared s half
size_style _ s = base_size s

-- `MuiIconButton`: its sizes besides those of a button
pub data IconButtonSize : Type 0 where
  mini em lh : IconButtonSize
  of_button : ButtonSize → IconButtonSize

-- A length in ems, in lines, or in 24ths of a rem, and the size of the font, which may be inherited.
pub data IconLength : Type 0 where
  one_em one_line inherited : IconLength
  rem_of : ℕ → IconLength

pub record IconButtonStyle : Type 0 where
  pub side : IconLength
  pub font_size : IconLength

unfoldable icon_button_style : IconButtonSize → IconButtonStyle
icon_button_style mini = record { side = one_em; font_size = rem_of 24 }
icon_button_style em = record { side = one_em; font_size = inherited }
icon_button_style lh = record { side = one_line; font_size = one_line }
icon_button_style (of_button s) = record {
  side = rem_of (size_rem_map s);
  font_size = rem_of (icon_size_rem_map s);
}

-- The color of an icon button that has a rule for it.
unfoldable icon_button_color : ColorName → Option Str
icon_button_color primary = shade grey 800
icon_button_color secondary = shade grey 500
icon_button_color info = shade grey 700
icon_button_color _ = none
