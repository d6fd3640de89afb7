-- ===== src/Sse/Lines.antt =====
-- What the lines of a chunk hand over, by `processLines` of src/frontend/src/services/chat.tsx.
use Prim.Native.Nat.{suc}
use swarm_engine.Prelude.{
  ℕ, ◌≡◌, refl, ap, ◌∙◌, Bool, true, false, Option, none, some, List, [], ◌∷◌, ◌++◌, map,
  if◌then◌else◌, length,
}
use swarm_engine.Text.{Str, codes, str_eq, starts_with, trim}
use swarm_engine.Json.{Json, undefined}
use swarm_engine.Sse.{
  SseMessage, is_defined, Field, kept, field_of, data_of, set_field, handed_over, process_from,
  process_lines,
}

-- The line that a server sends for a value.
abbrev pub data_line : Str → Str
data_line t = codes "data: " ++ t

-- A value that the server may send: trimmed, and not begun by a colon.
pub record IsPlain (t : Str) : Type 0 where
  pub trimmed : trim t ≡ t
  pub colon : starts_with (codes ":") t ≡ false

kept-data :
    (t : Str)
    → IsPlain t
    → kept (codes "data") (codes " " ++ t) ≡ some (record { name = codes "data"; value = t })
unfolding kept
kept-data t p =
    ap
      (λ x.
        if starts_with (codes ":") x
        then none
        else some (record { name = codes "data"; value = x }))
      p.trimmed
    ∙ rw p.colon refl

field_of-data_line :
    (t : Str)
    → IsPlain t
    → field_of (data_line t) ≡ some (record { name = codes "data"; value = t })
unfolding field_of
field_of-data_line t p = kept-data t p

-- Lines that are kept and are no data lines.
abbrev AllOther : List Str → Type 0
AllOther [] = Unit
AllOther (l ∷ ls) =
    ((f : Field) × (field_of l ≡ some f) × (str_eq f.name (codes "data") ≡ false)) × AllOther ls

abbrev pub AllCarry : Json → List SseMessage → Type 0
AllCarry b [] = Unit
AllCarry b (m ∷ ms) = (m.body ≡ b) × AllCarry b ms

module _ (parse : Str → Option Json) where
  -- The message that a data line stands for.
  abbrev pub message_of : Str → SseMessage
  message_of t = record { event = codes "message"; id = none; body = data_of parse t }

  abbrev AllPlain : List Str → Type 0
  AllPlain [] = Unit
  AllPlain (t ∷ ts) = IsPlain t × (is_defined (data_of parse t) ≡ true) × AllPlain ts

  set_field-data :
      (t : Str) (m : SseMessage)
      → set_field parse (record { name = codes "data"; value = t }) m
        ≡ record m { body = data_of parse t }
  unfolding set_field
  set_field-data t m = refl

  data_lines_from :
      (b : Json) (ts : List Str)
      → AllPlain ts
      → process_from parse
          (record { event = codes "message"; id = none; body = b })
          (map data_line ts)
        ≡ map message_of ts
  unfolding process_from
  data_lines_from b [] p = refl
  data_lines_from b (t ∷ ts) p =
      rw (field_of-data_line t p.0)
        (rw p.1 (ap (message_of t ∷◌) (data_lines_from (data_of parse t) ts p.2)))

  -- Data lines alone hand over one message each, in order, with the parsed value that `walk` has gone
  -- through; each value is trimmed, does not begin with a colon, and parses to something defined.
  pub process_lines-data :
      (ts : List Str) → AllPlain ts → process_lines parse (map data_line ts) ≡ map message_of ts
  unfolding process_lines
  process_lines-data ts p = data_lines_from undefined ts p

  body-set_field :
      (f : Field) (m : SseMessage)
      → str_eq f.name (codes "data") ≡ false
      → (set_field parse f m).body ≡ m.body
  unfolding set_field
  body-set_field f m h = rw h (go (str_eq f.name (codes "event")) (str_eq f.name (codes "id")))
    where
      go :
          (b c : Bool)
          → (if b
              then record m { event = f.value }
              else if c
              then record m { id = some f.value }
              else m).body
            ≡ m.body
      go true c = refl
      go false true = refl
      go false false = refl

  handed_once :
      (f : Field) (m : SseMessage) (b : Json) (rest : List SseMessage) (n : ℕ)
      → m.body ≡ b
      → is_defined b ≡ true
      → (length rest ≡ n) × AllCarry b rest
      → (length (handed_over (some f) m rest) ≡ suc n) × AllCarry b (handed_over (some f) m rest)
  handed_once f m b rest n e d h = rw (ap is_defined e ∙ d) (ap suc h.0, (e, h.1))

  repeated_from :
      (m : SseMessage) (b : Json) (ls : List Str)
      → m.body ≡ b
      → is_defined b ≡ true
      → AllOther ls
      → (length (process_from parse m ls) ≡ length ls) × AllCarry b (process_from parse m ls)
  unfolding process_from
  repeated_from m b [] e d o = (refl, tt)
  repeated_from m b (l ∷ ls) e d o = rw (o.0.1) (
      handed_once o.0.0 (set_field parse o.0.0 m) b
        (process_from parse (set_field parse o.0.0 m) ls) (length ls)
        (body-set_field o.0.0 m o.0.2 ∙ e) d
        (repeated_from (set_field parse o.0.0 m) b ls (body-set_field o.0.0 m o.0.2 ∙ e) d o.1))

  -- A data line, and behind it other lines that are kept: the one value is handed over for the data
  -- line and once more for every line behind it.
  pub process_lines-repeats :
      (t : Str) (ls : List Str)
      → IsPlain t
      → is_defined (data_of parse t) ≡ true
      → AllOther ls
      → (length (process_lines parse (data_line t ∷ ls)) ≡ suc (length ls))
        × AllCarry (data_of parse t) (process_lines parse (data_line t ∷ ls))
  unfolding process_lines process_from
  process_lines-repeats t ls p d o =
      rw (field_of-data_line t p, d)
        (let h = repeated_from (message_of t) (data_of parse t) ls refl d o in
          (ap suc h.0, (refl, h.1)))
