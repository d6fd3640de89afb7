-- ===== src/ChatHelper/Qwen.antt =====
-- `parseGenerationQwen` of src/frontend/src/services/chat-helper.tsx: the thinking spans of a raw
-- output are cut out, and what is left is the content.
pub mod Loop
pub mod Spans
use Prim.Native.Nat.{zero, suc}
use swarm_engine.Prelude.{
  ℕ, ◌+◌, ◌≡◌, refl, Bool, true, false, Option, none, some, List, [], ◌∷◌, ◌++◌, ltb, if◌then◌else◌,
  length,
}
use swarm_engine.Text.{Str, codes, index_of, substring, remove_first, trim}

abbrev pub think_tag_open : Str
think_tag_open = codes "<think>"

abbrev think_tag_close : Str
think_tag_close = codes "</think>"

pub record QwenGenerationMap : Type 0 where
  pub think : Str
  pub content : Str

-- `thinkEnd > thinkStart`; an absent closing tag has the index -1
unfoldable closes_after : Option ℕ → ℕ → Bool
closes_after none start = false
closes_after (some end_) start = ltb start end_

-- Where the thinking text ends: at the closing tag, or with the buffer.
unfoldable think_stop : Str → Option ℕ → ℕ → ℕ
think_stop buffer none start = length buffer
think_stop buffer (some end_) start = if ltb start end_ then end_ else length buffer

unfoldable pub think_text : Str → ℕ → Str
unfolding index_of substring think_stop
think_text buffer start =
    substring buffer (start + length think_tag_open)
      (think_stop buffer (index_of think_tag_close buffer) start)

-- The string that `replace` looks for.
unfoldable pub think_block : Str → ℕ → Str
unfolding think_text closes_after
think_block buffer start =
    think_tag_open
    ++ (think_text buffer start
        ++ (if closes_after (index_of think_tag_close buffer) start then think_tag_close else []))

-- The `while` loop; `none` means that the fuel ran out.
unfoldable pub strip_thinks : ℕ → Str → Str → Option (Str × Str)
strip_thinks zero buffer think = none
strip_thinks (suc fuel) buffer think = elim (index_of think_tag_open buffer) [
  | none ↦ some (think, buffer)
  | some start ↦
      strip_thinks fuel (remove_first (think_block buffer start) buffer)
        (think ++ (codes "\n\n" ++ think_text buffer start))
]

abbrev trimmed : Option (Str × Str) → Option QwenGenerationMap
trimmed none = none
trimmed (some (think, content)) = some (record { think = trim think; content = trim content })

unfoldable pub parse_generation_qwen : Str → Option QwenGenerationMap
unfolding strip_thinks trim think_block remove_first
parse_generation_qwen buffer = trimmed (strip_thinks (suc (length (trim buffer))) (trim buffer) [])
