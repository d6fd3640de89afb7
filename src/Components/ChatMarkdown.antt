-- ===== src/Components/ChatMarkdown.antt =====
-- src/frontend/src/components/inputs/chat-markdown.tsx: what a text is made into before it is rendered as
-- Markdown, the elements that render it, and the tags that are let through. The renderer and its plugins
-- are libraries.
pub mod Math
use Prim.Native.Nat.{zero, suc, ◌<◌, ◌≤◌, max, min}
use swarm_engine.Prelude.{
  ℕ, ◌+◌, ◌-◌, ◌*◌, ◌/◌, ◌%◌, String, ◌≡◌, refl, sym, ap, ap₂, subst, ◌∙◌, fun_ext, ◌≢◌, ◌↔◌, ◌⊎◌,
  inl, inr, Bool, true, false, not, ◌&&◌, ◌||◌, Option, none, some, List, [], ◌∷◌, ◌++◌, map,
  append-nil, append_assoc, arith, ltb, leb, ◌==◌, if◌then◌else◌, ==_iff, ==_refl, Bool-cases,
  Option-cases, some_inj, lt→ltb, ge→ltb, ltb→lt, ltb→ge, length, get_elem?, take, drop,
  length-append, take-append-drop, length-drop, take-length-append, drop-append_add, last?, init,
  last?-append, init-append, init-append-last, any, all, filter, find, find_index, length-map,
}
use swarm_engine.Text.{Str, codes, str_eq, index_of}

-- `s.replace(/p/, r)` with a pattern that is a literal text: its first occurrence is replaced.
unfoldable replace_first : Str → Str → Str → Str
unfolding index_of
replace_first p r s = elim (index_of p s) [
  | none ↦ s
  | some i ↦ take i s ++ (r ++ drop (i + length p) s)
]

abbrev two_lines : Str
two_lines = 10 ∷ 10 ∷ []

-- `preprocessThink`
unfoldable pub preprocess_think : Str → Str
unfolding replace_first
preprocess_think input =
    replace_first (codes "</think>") (two_lines ++ (codes "</think>" ++ two_lines))
      (replace_first (codes "<think>") (codes "<think>" ++ two_lines) input)

-- What a replacement text stands for: in `String.replace`, `$$` is a `$`.
unfoldable expand_replacement : Str → Str
expand_replacement [] = []
expand_replacement (a ∷ []) = a ∷ []
expand_replacement (a ∷ b ∷ r) = elim (a == b'$' && b == b'$') [
  | true ↦ b'$' ∷ expand_replacement r
  | false ↦ a ∷ expand_replacement (b ∷ r)
]

-- `s.replace(/\\c/g, r)`, for the units `c` that pass a test: each backslash with such a unit behind it.
unfoldable pub replace_escaped : (ℕ → Bool) → Str → Str → Str
replace_escaped test r [] = []
replace_escaped test r (a ∷ []) = a ∷ []
replace_escaped test r (a ∷ b ∷ s) = elim (a == 92 && test b) [
  | true ↦ r ++ replace_escaped test r s
  | false ↦ a ∷ replace_escaped test r (b ∷ s)
]

-- `preprocessMath`
unfoldable pub preprocess_math : Str → Str
unfolding replace_escaped expand_replacement
preprocess_math input =
    replace_escaped (λ c. c == b')') (expand_replacement (codes "$"))
      (replace_escaped (λ c. c == b'(') (expand_replacement (codes "$"))
        (replace_escaped (λ c. c == b']') (expand_replacement (codes "$$"))
          (replace_escaped (λ c. c == b'[') (expand_replacement (codes "$$")) input)))

-- The color of a text.
pub data MarkdownColor : Type 0 where
  disabled primary : MarkdownColor

-- The element that renders a tag of Markdown.
pub data MarkdownElement : Type 0 where
  typography : Str → MarkdownElement
  divider table_in_container table_head table_body table_row table_cell : MarkdownElement

-- `components`
abbrev markdown_components : List (Str × MarkdownElement)
markdown_components =
    (codes "h1", typography (codes "h1"))
    ∷ (codes "h2", typography (codes "h2"))
    ∷ (codes "h3", typography (codes "h3"))
    ∷ (codes "h4", typography (codes "h4"))
    ∷ (codes "h5", typography (codes "h5"))
    ∷ (codes "h6", typography (codes "h6"))
    ∷ (codes "p", typography (codes "body1"))
    ∷ (codes "caption", typography (codes "caption"))
    ∷ (codes "hr", divider)
    ∷ (codes "table", table_in_container)
    ∷ (codes "thead", table_head)
    ∷ (codes "tbody", table_body)
    ∷ (codes "tr", table_row)
    ∷ (codes "th", table_cell)
    ∷ (codes "td", table_cell)
    ∷ []

abbrev block_list : List Str
block_list =
    codes "script"
    ∷ codes "iframe"
    ∷ codes "style"
    ∷ codes "form"
    ∷ codes "input"
    ∷ codes "textarea"
    ∷ []

-- `defaultSchema.tagNames || []` without the tags of the list.
unfoldable pub schema_tags : Option (List Str) → List Str
unfolding str_eq
schema_tags none = []
schema_tags (some tags) = filter (λ t. not (any (str_eq t) block_list)) tags

-- What is handed to the renderer.
pub record MarkdownView : Type 0 where
  pub color : MarkdownColor
  pub components : List (Str × MarkdownElement)
  pub tag_names : List Str
  pub content : Str

unfoldable markdown_view : Option (List Str) → Bool → Str → MarkdownView
unfolding preprocess_think preprocess_math schema_tags
markdown_view default_tags is_thinking content = record {
  color = if is_thinking then disabled else primary;
  components = markdown_components;
  tag_names = schema_tags default_tags;
  content = preprocess_math (preprocess_think content);
}
