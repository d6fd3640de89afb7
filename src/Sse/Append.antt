-- ===== src/Sse/Append.antt =====
-- Chunks whose lines carry data or are skipped, in `processLines` of src/frontend/src/services/chat.tsx.
use swarm_engine.Prelude.{
  ◌≡◌, refl, sym, ap, ◌∙◌, ◌⊎◌, inl, inr, Bool, true, false, Option, none, some, List, [], ◌∷◌,
  ◌++◌, if◌then◌else◌,
}
use swarm_engine.Text.{Str, codes, str_eq}
use swarm_engine.Json.{Json, undefined}
use swarm_engine.Sse.{
  SseMessage, is_defined, Field, field_of, data_of, set_field, process_field, handed_over,
  process_from, process_lines,
}

-- Lines that are data lines, or that are skipped.
abbrev pub AllData : List Str → Type 0
AllData [] = Unit
AllData (l ∷ ls) =
    ((field_of l ≡ none) ⊎ ((f : Field) × (field_of l ≡ some f) × (f.name ≡ codes "data")))
    × AllData ls

pub AllData-append : (xs ys : List Str) → AllData (xs ++ ys) → AllData xs × AllData ys
AllData-append [] ys h = (tt, h)
AllData-append (x ∷ xs) ys h = let (a, b) = AllData-append xs ys h.1 in ((h.0, a), b)

abbrev with_body : Json → SseMessage
with_body b = record { event = codes "message"; id = none; body = b }

module _ (parse : Str → Option Json) where
  set_field-data :
      (f : Field) (b : Json)
      → f.name ≡ codes "data"
      → set_field parse f (with_body b) ≡ with_body (data_of parse f.value)
  unfolding set_field str_eq
  set_field-data f b h = rw h refl

  skipped :
      (m : SseMessage) (l : Str) (ls : List Str)
      → field_of l ≡ none
      → process_from parse m (l ∷ ls) ≡ process_from parse m ls
  unfolding process_from process_field
  skipped m l ls h = rw h refl

  carried :
      (b : Json) (l : Str) (ls : List Str) (f : Field)
      → field_of l ≡ some f
      → f.name ≡ codes "data"
      → process_from parse (with_body b) (l ∷ ls)
        ≡ handed_over
            (some f)
            (with_body (data_of parse f.value))
            (process_from parse (with_body (data_of parse f.value)) ls)
  unfolding process_from process_field
  carried b l ls f h n =
      rw h (ap (λ m. handed_over (some f) m (process_from parse m ls)) (set_field-data f b n))

  -- The data before the lines does not matter.
  body_free :
      (b c : Json) (ls : List Str)
      → AllData ls
      → process_from parse (with_body b) ls ≡ process_from parse (with_body c) ls
  body_free b c [] h = unfold process_from in refl
  body_free b c (l ∷ ls) (inl e, h) =
      skipped (with_body b) l ls e ∙ body_free b c ls h ∙ sym (skipped (with_body c) l ls e)
  body_free b c (l ∷ ls) (inr (f, e, n), h) = carried b l ls f e n ∙ sym (carried c l ls f e n)

  append_from :
      (b : Json) (xs ys : List Str)
      → AllData xs
      → AllData ys
      → process_from parse (with_body b) (xs ++ ys)
        ≡ process_from parse (with_body b) xs ++ process_lines parse ys
  append_from b [] ys h k = unfold process_lines process_from in body_free b undefined ys k
  append_from b (l ∷ xs) ys (inl e, h) k =
      skipped (with_body b) l (xs ++ ys) e
      ∙ append_from b xs ys h k
      ∙ ap (◌++ process_lines parse ys) (sym (skipped (with_body b) l xs e))
  append_from b (l ∷ xs) ys (inr (f, e, n), h) k =
      carried b l (xs ++ ys) f e n
      ∙ ap (handed_over (some f) (with_body (data_of parse f.value)))
          (append_from (data_of parse f.value) xs ys h k)
      ∙ handed (is_defined (data_of parse f.value)) (with_body (data_of parse f.value))
          (process_from parse (with_body (data_of parse f.value)) xs)
      ∙ ap (◌++ process_lines parse ys) (sym (carried b l xs f e n))
    where
      handed :
          (d : Bool) (m : SseMessage) (r : List SseMessage)
          → (if d then m ∷ (r ++ process_lines parse ys) else r ++ process_lines parse ys)
            ≡ (if d then m ∷ r else r) ++ process_lines parse ys
      handed true m r = refl
      handed false m r = refl

  -- Lines that carry data or are skipped hand over the same messages in one chunk and in two.
  pub process_lines-append :
      (xs ys : List Str)
      → AllData xs
      → AllData ys
      → process_lines parse (xs ++ ys) ≡ process_lines parse xs ++ process_lines parse ys
  process_lines-append xs ys h k = unfold process_lines in append_from undefined xs ys h k

  pub process_lines-nil : process_lines parse [] ≡ []
  unfolding process_lines process_from
  process_lines-nil = refl
