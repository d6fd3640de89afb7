-- ===== src/Sse.antt =====
-- `processLines` of `createSSE` in src/frontend/src/services/chat.tsx: the lines of one chunk of a
-- server-sent event stream, and the messages that they hand to `onMessage`.
pub mod Lines
pub mod Append
use Prim.Native.Nat.{zero, suc, ◌<◌, ◌≤◌, max, min}
use swarm_engine.Prelude.{
  ℕ, ◌+◌, ◌-◌, ◌*◌, ◌/◌, ◌%◌, String, ◌≡◌, refl, sym, ap, ap₂, subst, ◌∙◌, fun_ext, ◌≢◌, ◌↔◌, ◌⊎◌,
  inl, inr, Bool, true, false, not, ◌&&◌, ◌||◌, Option, none, some, List, [], ◌∷◌, ◌++◌, map,
  append-nil, append_assoc, arith, ltb, leb, ◌==◌, if◌then◌else◌, ==_iff, ==_refl, Bool-cases,
  Option-cases, some_inj, length, get_elem?, take, drop, length-append, take-append-drop,
  length-drop, take-length-append, drop-append_add, last?, init, last?-append, init-append,
  init-append-last, any, all, filter, find, find_index, length-map,
}
use swarm_engine.Text.{Str, codes, str_eq, starts_with, index_of, trim}
use swarm_engine.Json.{Json, undefined, str, strip}

-- `message.data` is `undefined` at the start.
pub record SseMessage : Type 0 where
  pub event : Str
  pub id : Option Str
  pub body : Json

abbrev new_message : SseMessage
new_message = record { event = codes "message"; id = none; body = undefined }

abbrev is_defined : Json → Bool
is_defined undefined = false
is_defined _ = true

-- A line that is read: the name of its field, and its value.
pub record Field : Type 0 where
  pub name : Str
  pub value : Str

-- A line with no colon, or with one at its start, is skipped, and so is a value that starts with one.
unfoldable kept : Str → Str → Option Field
unfolding trim starts_with
kept name value =
    if starts_with (codes ":") (trim value)
    then none
    else some (record { name = trim name; value = trim value })

unfoldable field_at : Str → Option ℕ → Option Field
unfolding kept
field_at line none = none
field_at line (some zero) = none
field_at line (some (suc i)) = kept (take (suc i) line) (drop (suc (suc i)) line)

unfoldable pub field_of : Str → Option Field
unfolding field_at index_of
field_of line = field_at line (index_of (codes ":") line)

abbrev handed_over : Option Field → SseMessage → List SseMessage → List SseMessage
handed_over none m rest = rest
handed_over (some f) m rest = if is_defined m.body then m ∷ rest else rest

module _ (parse : Str → Option Json) where
  -- `JSON.parse`, then `walk`; a text that does not parse is itself the data.
  unfoldable pub data_of : Str → Json
  unfolding strip
  data_of value = elim (parse value) [ none ↦ str value | some j ↦ strip j ]

  -- The `switch` on the name of the field.
  unfoldable set_field : Field → SseMessage → SseMessage
  unfolding data_of str_eq
  set_field f m =
      if str_eq f.name (codes "event")
      then record m { event = f.value }
      else if str_eq f.name (codes "id")
      then record m { id = some f.value }
      else if str_eq f.name (codes "data")
      then record m { body = data_of f.value }
      else m

  -- A line that is kept updates the message, and hands it over if it has data by then.
  unfoldable process_field : Option Field → SseMessage → SseMessage
  unfolding set_field
  process_field none m = m
  process_field (some f) m = set_field f m

  unfoldable process_from : SseMessage → List Str → List SseMessage
  unfolding process_field field_of
  process_from m [] = []
  process_from m (l ∷ ls) =
      let m' = process_field (field_of l) m in handed_over (field_of l) m' (process_from m' ls)

  -- `processLines`: the messages that one chunk's lines hand over, in order.
  unfoldable pub process_lines : List Str → List SseMessage
  unfolding process_from
  process_lines ls = process_from new_message ls
