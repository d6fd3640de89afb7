-- ===== src/Theme/Controls.antt =====
-- src/frontend/src/themes/components: the rules of data-display/chip.ts, form/slider.ts and
-- feedback/progress.ts for the colors and the sizes of chips, sliders and linear progress. A length is a
-- number of ten thousandths of a rem.
use swarm_engine.Prelude.{
  ℕ, ◌-◌, ◌*◌, Bool, true, false, ◌&&◌, Option, none, some, List, [], ◌∷◌, map, filter,
}
use swarm_engine.Text.{Str}
use swarm_engine.Theme.{
  grey, shade, ColorName, brand_color, primary, secondary, error, info, success, warning,
  palette_color,
}
use swarm_engine.Theme.Button.{color_eq}

pub data ControlSize : Type 0 where
  small medium : ControlSize

abbrev size_eq : ControlSize → ControlSize → Bool
size_eq small small = true
size_eq medium medium = true
size_eq _ _ = false

-- The chip of a size: its height, its inner distance and its radius.
pub record ChipSizes : Type 0 where
  pub height : ℕ
  pub padding_inline : ℕ
  pub border_radius : ℕ

-- `sizeSmall` and `sizeMedium`, with the two maps
abbrev chip_sizes : ControlSize → ChipSizes
chip_sizes small = record { height = 16250; padding_inline = 6250; border_radius = 3750 }
chip_sizes medium = record { height = 13750; padding_inline = 7500; border_radius = 2500 }

pub data ChipVariant : Type 0 where
  filled outlined : ChipVariant

abbrev chip_variant_eq : ChipVariant → ChipVariant → Bool
chip_variant_eq filled filled = true
chip_variant_eq outlined outlined = true
chip_variant_eq _ _ = false

pub record ChipRule : Type 0 where
  pub variant : ChipVariant
  pub color : ColorName
  pub background : Option Str
  pub text : Option Str

-- `COLORS` of the chips
abbrev chip_colors : List ColorName
chip_colors = secondary ∷ info ∷ brand_color ∷ primary ∷ error ∷ success ∷ warning ∷ []

abbrev chip_rule : ColorName → ChipVariant → ChipRule
chip_rule c v = record {
  variant = v;
  color = c;
  background = (palette_color c).chip;
  text = (palette_color c).chip_text;
}

-- `containedColorVariants`
unfoldable chip_rules : List ColorName → List ChipRule
chip_rules [] = []
chip_rules (c ∷ cs) = chip_rule c filled ∷ chip_rule c outlined ∷ chip_rules cs

-- The rules that apply to a chip.
unfoldable pub chip_styles : ChipVariant → ColorName → List ChipRule
unfolding chip_rules color_eq
chip_styles v c =
    filter (λ r. chip_variant_eq r.variant v && color_eq r.color c) (chip_rules chip_colors)

-- `SizeMaps`
pub record SliderSizes : Type 0 where
  pub thumb : ℕ
  pub track : ℕ
  pub rail : ℕ
  pub padding : ℕ

abbrev slider_sizes : ControlSize → SliderSizes
slider_sizes small = record { thumb = 7500; track = 3125; rail = 3125; padding = 1250 }
slider_sizes medium = record { thumb = 10000; track = 6250; rail = 6250; padding = 1250 }

pub record SliderRule : Type 0 where
  pub color : ColorName
  pub size : ControlSize
  pub main : Option Str
  pub disabled_thumb : Option Str
  pub thumb_size : ℕ
  pub track_height : ℕ
  pub track_margin : ℕ
  pub rail_height : ℕ
  pub rail_padding : ℕ
  pub rail_color : Option Str

-- `COLORS` of the sliders
abbrev slider_colors : List ColorName
slider_colors = brand_color ∷ primary ∷ secondary ∷ error ∷ info ∷ success ∷ warning ∷ []

abbrev slider_rule : ColorName → ControlSize → SliderRule
slider_rule c size =
    let m = slider_sizes size in
    record {
      color = c;
      size = size;
      main = (palette_color c).main;
      disabled_thumb = shade grey 250;
      thumb_size = m.thumb;
      track_height = m.track - m.padding * 2;
      track_margin = m.padding;
      rail_height = m.rail;
      rail_padding = m.padding;
      rail_color = shade grey 250;
    }

-- `colorVariants`
unfoldable slider_rules : List ColorName → List SliderRule
slider_rules [] = []
slider_rules (c ∷ cs) = slider_rule c small ∷ slider_rule c medium ∷ slider_rules cs

abbrev or_default : {A : Type 0} → A → Option A → A
or_default d none = d
or_default d (some a) = a

-- The rules that apply to a slider; without a color or a size it has the default ones.
unfoldable pub slider_styles : Option ColorName → Option ControlSize → List SliderRule
unfolding slider_rules color_eq
slider_styles color size =
    let c = or_default brand_color color in
    let z = or_default medium size in
    filter (λ r. color_eq r.color c && size_eq r.size z) (slider_rules slider_colors)

pub record ProgressRule : Type 0 where
  pub color : ColorName
  pub rail : Option Str
  pub bar : Option Str

-- `COLORS` of the linear progress
abbrev progress_colors : List ColorName
progress_colors = primary ∷ secondary ∷ brand_color ∷ info ∷ error ∷ success ∷ warning ∷ []

-- The two lists of rules, of the root and of the bar, which have the same colors.
abbrev progress_rules : List ProgressRule
progress_rules =
    map (λ c. record { color = c; rail = shade grey 300; bar = (palette_color c).main })
      progress_colors

unfoldable pub progress_styles : ColorName → List ProgressRule
unfolding color_eq
progress_styles c = filter (λ r. color_eq r.color c) progress_rules
