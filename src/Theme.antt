-- ===== src/Theme.antt =====
-- src/frontend/src/themes/palette.ts and the shades of src/frontend/src/themes/shadows.ts: the colors of
-- the theme. A color is the text of its CSS value; a shade is looked up in a scale, and the source says
-- of each that it is there.
pub mod Button
pub mod Alert
pub mod Controls
use Prim.Native.Nat.{zero, suc, ◌<◌, ◌≤◌, max, min}
use swarm_engine.Prelude.{
  ℕ, ◌+◌, ◌-◌, ◌*◌, ◌/◌, ◌%◌, String, ◌≡◌, refl, sym, ap, ap₂, subst, ◌∙◌, fun_ext, ◌≢◌, ◌↔◌, ◌⊎◌,
  inl, inr, Bool, true, false, not, ◌&&◌, ◌||◌, Option, none, some, List, [], ◌∷◌, ◌++◌, map,
  append-nil, append_assoc, arith, ltb, leb, ◌==◌, if◌then◌else◌, ==_iff, ==_refl, Bool-cases,
  Option-cases, some_inj, lt→ltb, ge→ltb, ltb→lt, ltb→ge, length, get_elem?, take, drop,
  length-append, take-append-drop, length-drop, take-length-append, drop-append_add, last?, init,
  last?-append, init-append, init-append-last, any, all, filter, find, find_index, length-map,
}
use swarm_engine.Text.{Str, codes}

abbrev white : Str
white = codes "#ffffff"

abbrev black : Str
black = codes "#000000"

-- A scale of shades.
abbrev Scale : Type 0
Scale = List (ℕ × Str)

abbrev brand : Scale
brand = (500, codes "#05aa6c") ∷ (100, codes "#cdeee4") ∷ (50, codes "#dff0e7") ∷ []

abbrev grey : Scale
grey =
    (50, codes "#FAFAFA")
    ∷ (100, codes "#F7F7F7")
    ∷ (200, codes "#F1F1F1")
    ∷ (250, codes "#e4e4e4")
    ∷ (300, codes "#D6D6D6")
    ∷ (400, codes "#BBBBBB")
    ∷ (500, codes "#A0A0A0")
    ∷ (600, codes "#858585")
    ∷ (700, codes "#6A6969")
    ∷ (800, codes "#4F4E4E")
    ∷ (900, codes "#343333")
    ∷ (1000, codes "#191818")
    ∷ []

abbrev red : Scale
red =
    (100, codes "#f5e5dd")
    ∷ (200, codes "#efbcb3")
    ∷ (400, codes "#f06a64")
    ∷ (500, codes "#d92d20")
    ∷ []

abbrev orange : Scale
orange = (100, codes "#f5e9cf") ∷ (200, codes "#e99f55") ∷ (500, codes "#ec7804") ∷ []

abbrev green : Scale
green = (100, codes "#e0f0e2") ∷ (200, codes "#b0dbc3") ∷ (500, codes "#079455") ∷ []

-- `scale[n]!`; `none` is `undefined`.
abbrev shade : Scale → ℕ → Option Str
shade [] n = none
shade ((m, c) ∷ s) n = if m == n then some c else shade s n

pub record PaletteColor : Type 0 where
  pub main : Option Str
  pub darker : Option Str
  pub dark : Option Str
  pub light : Option Str
  pub lighter : Option Str
  pub contrast_text : Option Str
  pub chip : Option Str
  pub chip_text : Option Str

pub data ColorName : Type 0 where
  brand_color primary secondary error info success warning : ColorName

-- `palette`, of the colors that have shades
abbrev pub palette_color : ColorName → PaletteColor
palette_color brand_color = record {
  main = shade brand 500;
  darker = shade brand 500;
  dark = shade brand 500;
  light = shade brand 500;
  lighter = shade brand 50;
  contrast_text = shade grey 100;
  chip = shade brand 100;
  chip_text = shade brand 500;
}
palette_color primary = record {
  main = shade grey 900;
  darker = shade grey 1000;
  dark = shade grey 1000;
  light = shade grey 800;
  lighter = shade grey 700;
  contrast_text = shade grey 100;
  chip = shade grey 100;
  chip_text = shade grey 800;
}
palette_color secondary = record {
  main = shade grey 100;
  darker = shade grey 250;
  dark = shade grey 200;
  light = shade grey 200;
  lighter = shade grey 300;
  contrast_text = shade grey 900;
  chip = shade brand 100;
  chip_text = shade brand 500;
}
palette_color error = record {
  main = shade red 500;
  darker = shade red 500;
  dark = shade red 500;
  light = shade red 400;
  lighter = shade red 100;
  contrast_text = shade grey 100;
  chip = shade red 100;
  chip_text = shade red 500;
}
palette_color info = record {
  main = some white;
  darker = shade grey 250;
  dark = shade grey 500;
  light = shade grey 100;
  lighter = shade grey 100;
  contrast_text = shade grey 800;
  chip = shade grey 200;
  chip_text = shade grey 800;
}
palette_color success = record {
  main = shade green 500;
  darker = shade green 500;
  dark = shade green 500;
  light = shade green 500;
  lighter = shade green 100;
  contrast_text = shade grey 100;
  chip = shade red 100;
  chip_text = shade brand 500;
}
palette_color warning = record {
  main = shade orange 500;
  darker = shade orange 500;
  dark = shade orange 500;
  light = shade orange 500;
  lighter = shade orange 100;
  contrast_text = shade grey 100;
  chip = shade orange 100;
  chip_text = shade orange 500;
}

-- `palette.text`, `palette.divider` and `palette.background`
pub record PaletteTexts : Type 0 where
  pub text_primary : Option Str
  pub text_secondary : Option Str
  pub text_disabled : Option Str
  pub divider : Option Str
  pub background_default : Option Str
  pub background_paper : Option Str
  pub background_area : Option Str

abbrev palette_texts : PaletteTexts
palette_texts = record {
  text_primary = shade grey 900;
  text_secondary = shade grey 700;
  text_disabled = shade grey 500;
  divider = shade grey 250;
  background_default = some white;
  background_paper = some white;
  background_area = shade grey 200;
}

-- The shades of buttons in `overlays`
abbrev button_shade_default : Str
button_shade_default = codes "0px 1px 2px 0px rgba(49, 49, 48, 0.05)"

abbrev button_shade_active_light : Str
button_shade_active_light =
    codes "0px 0px 0px 4px rgba(49, 49, 48, 0.05), "
    ++ codes "0px 1px 2px 0px rgba(49, 49, 48, 0.05)"

abbrev button_shade_active_dark : Str
button_shade_active_dark =
    codes "0px 0px 0px 4px rgba(49, 49, 48, 0.24), "
    ++ codes "0px 1px 2px 0px rgba(49, 49, 48, 0.32)"

abbrev button_shade_brand : Str
button_shade_brand =
    codes "0 1px 2px 0 rgba(7, 139, 89, 0.10), " ++ codes "0 0 0 4px rgba(7, 139, 89, 0.10)"

abbrev button_shade_error : Str
button_shade_error =
    codes "0px 0px 0px 4px rgba(221, 82, 76, 0.12), "
    ++ codes "0px 1px 2px 0px rgba(221, 82, 76, 0.05)"
