-- ===== src/ChatHelper/Gpt.antt =====
-- `parseGenerationGpt` of src/frontend/src/services/chat-helper.tsx: the messages of a raw output,
-- by channel. The regular expression is matched by hand: a name is all units up to the next `<`, and a
-- body is the shortest text before an end tag or the end of the buffer.
pub mod Render
pub mod Total
use Prim.Native.Nat.{zero, suc}
use swarm_engine.Prelude.{
  ℕ, ◌+◌, ◌≡◌, refl, Bool, true, false, Option, none, some, List, [], ◌∷◌, ◌++◌, ◌==◌,
  if◌then◌else◌, length, take, drop,
}
use swarm_engine.Text.{Str, codes, str_eq, index_of, strip_prefix, trim}

-- The object that maps a channel to its message. A later write to a key replaces the earlier one.
abbrev pub GptGenerationMap : Type 0
GptGenerationMap = List (Str × Str)

abbrev pub initial_map : GptGenerationMap
initial_map = (codes "analysis", []) ∷ (codes "final", []) ∷ []

-- `map[key]`
unfoldable pub lookup : Str → GptGenerationMap → Option Str
lookup k [] = none
lookup k ((j, v) ∷ m) = if str_eq j k then some v else lookup k m

-- `map[key] = value`
unfoldable insert : Str → Str → GptGenerationMap → GptGenerationMap
insert k v [] = (k, v) ∷ []
insert k v ((j, w) ∷ m) = if str_eq j k then (j, v) ∷ m else (j, w) ∷ insert k v m

abbrev channel_tag : Str
channel_tag = codes "<|channel|>"

abbrev message_tag : Str
message_tag = codes "<|message|>"

abbrev end_tag : Str
end_tag = codes "<|end|>"

-- `[^<]+`: the units before the next `<`, and the rest
unfoldable span_name : Str → Str × Str
span_name [] = ([], [])
span_name (c ∷ s) = if c == 60 then ([], c ∷ s) else (c ∷ (span_name s).0, (span_name s).1)

-- The text before an end tag at the index, and what follows the tag; all of it with no tag.
abbrev cut_body : Str → Option ℕ → Str × Str
cut_body s none = (s, [])
cut_body s (some i) = (take i s, drop (i + length end_tag) s)

-- `(.*?)(<\|end\|>|$)`: the body, and what follows the match
unfoldable span_body : Str → Str × Str
unfolding index_of
span_body s = cut_body s (index_of end_tag s)

pub record Match : Type 0 where
  pub name : Str
  pub body : Str
  pub rest : Str

-- `<\|message\|>` and the body, after a name
unfoldable match_message : Str → Option Str → Option Match
unfolding span_body
match_message [] after = none
match_message (c ∷ name) none = none
match_message (c ∷ name) (some s) =
    some (record { name = c ∷ name; body = (span_body s).0; rest = (span_body s).1 })

unfoldable match_name : Option Str → Option Match
unfolding span_name match_message strip_prefix
match_name none = none
match_name (some s) = match_message (span_name s).0 (strip_prefix message_tag (span_name s).1)

-- The match of the whole expression that begins at this place.
unfoldable match_here : Str → Option Match
unfolding match_name strip_prefix
match_here s = match_name (strip_prefix channel_tag s)

-- The loop over `regex.exec`: the next match is looked for behind the last one. `none` means that
-- the fuel ran out.
unfoldable exec_all : ℕ → Str → GptGenerationMap → Option GptGenerationMap
exec_all zero s m = none
exec_all (suc fuel) [] m = some m
exec_all (suc fuel) (c ∷ s) m = elim (match_here (c ∷ s)) [
  | none ↦ exec_all fuel s m
  | some r ↦ exec_all fuel r.rest (insert r.name (trim r.body) m)
]

unfoldable pub parse_generation_gpt : Str → Option GptGenerationMap
unfolding exec_all match_here insert trim str_eq
parse_generation_gpt buffer = exec_all (suc (length (trim buffer))) (trim buffer) initial_map
