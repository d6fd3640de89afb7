-- ===== src/ChatHelper/Qwen/Spans.antt =====
-- A description by indices of the thinking spans that `parseGenerationQwen` cuts out.
use Prim.Native.Nat.{zero, suc}
use swarm_engine.Prelude.{
  ℕ, ◌+◌, ◌-◌, ◌≡◌, refl, ap, ap₂, ◌∙◌, inl, inr, Bool, true, false, Option, none, some, List, [],
  ◌∷◌, ◌++◌, arith, ltb, if◌then◌else◌, Option-cases, length, take, drop, take-length-append,
  drop-append_add, last?,
}
use swarm_engine.Text.{Str, codes, index_of, remove_first, trim, is_space}
use swarm_engine.Text.Trim.{trim_keep}
use swarm_engine.ChatHelper.Qwen.{
  think_tag_open, think_tag_close, think_text, think_block, strip_thinks, trimmed,
  parse_generation_qwen,
}
use swarm_engine.ChatHelper.Qwen.Loop.{behind, think_text-closed, remove_first-think_block}

-- One more span before the others.
abbrev push : Str → Option (List Str × Str) → Option (List Str × Str)
push t none = none
push t (some (ts, c)) = some (t ∷ ts, c)

-- The description: the spans are cut out by their indices, with no search for their text.
pub cut_thinks : ℕ → Str → Option (List Str × Str)
cut_thinks zero b = none
cut_thinks (suc fuel) b = elim (index_of think_tag_open b) [
  | none ↦ some ([], b)
  | some s ↦
      push (think_text b s) (cut_thinks fuel (take s b ++ behind b (index_of think_tag_close b) s))
]

-- Each thinking text on a paragraph of its own.
abbrev paragraphs : Str → List Str → Str
paragraphs think [] = think
paragraphs think (t ∷ ts) = paragraphs (think ++ (codes "\n\n" ++ t)) ts

abbrev pub described : Str → Option (List Str × Str) → Option (Str × Str)
described think none = none
described think (some (ts, c)) = some (paragraphs think ts, c)

described-push :
    (think t : Str) (o : Option (List Str × Str))
    → described (think ++ (codes "\n\n" ++ t)) o ≡ described think (push t o)
described-push think t none = refl
described-push think t (some (ts, c)) = refl

-- The loop, which searches for the text of each span and removes its first occurrence, computes
-- what the description by indices does, at any fuel.
pub strip_thinks-eq-cut_thinks :
    (fuel : ℕ) (b think : Str) → strip_thinks fuel b think ≡ described think (cut_thinks fuel b)
unfolding strip_thinks cut_thinks
strip_thinks-eq-cut_thinks zero b think = refl
strip_thinks-eq-cut_thinks (suc fuel) b think = elim (Option-cases (index_of think_tag_open b)) [
  | inl e ↦ rw (e, strip_thinks, cut_thinks)
  | inr (s, e) ↦
      rw (e, strip_thinks, cut_thinks)
        (ap (λ r. strip_thinks fuel r (think ++ (codes "\n\n" ++ think_text b s)))
            (remove_first-think_block b s e)
          ∙ strip_thinks-eq-cut_thinks fuel (take s b ++ behind b (index_of think_tag_close b) s)
              (think ++ (codes "\n\n" ++ think_text b s))
          ∙ described-push think (think_text b s)
              (cut_thinks fuel (take s b ++ behind b (index_of think_tag_close b) s)))
]

-- A raw output of one closed thinking span and an answer.
abbrev pub thought : Str → Str → Str
thought t c = think_tag_open ++ (t ++ (think_tag_close ++ c))

text_of_thought :
    (t c : Str)
    → index_of think_tag_close (thought t c) ≡ some (7 + length t)
    → think_text (thought t c) 0 ≡ t
text_of_thought t c h =
    think_text-closed (thought t c) 0 (7 + length t) (omega arith) h
    ∙ ap (λ k. take k (t ++ (think_tag_close ++ c))) {x = 7 + length t - (0 + 7)} (omega arith)
    ∙ take-length-append t (think_tag_close ++ c)

behind-thought : (t c : Str) → behind (thought t c) (some (7 + length t)) 0 ≡ c
behind-thought t c = pick (ltb 0 (7 + length t)) (ground arith) (
    ap (λ k. drop k (thought t c)) {x = 7 + length t + 8} {y = 7 + (length t + 8)} (omega arith)
    ∙ drop-append_add think_tag_open (t ++ (think_tag_close ++ c)) (length t + 8)
    ∙ drop-append_add t (think_tag_close ++ c) 8)
  where
    pick : (b : Bool) {d : Str} → b ≡ true → d ≡ c → (if b then d else []) ≡ c
    pick true e h = h
    pick false e h = cc

found_open : (t c : Str) → index_of think_tag_open (thought t c) ≡ some 0
unfolding index_of
found_open t c = refl

after_thought :
    (t c : Str)
    → index_of think_tag_close (thought t c) ≡ some (7 + length t)
    → remove_first (think_block (thought t c) 0) (thought t c) ≡ c
after_thought t c h =
    remove_first-think_block (thought t c) 0 (found_open t c)
    ∙ ap (λ o. behind (thought t c) o 0) h
    ∙ behind-thought t c

strip_thought :
    (n : ℕ) (t c : Str)
    → index_of think_tag_close (thought t c) ≡ some (7 + length t)
    → index_of think_tag_open c ≡ none
    → strip_thinks (suc (suc n)) (thought t c) [] ≡ some (codes "\n\n" ++ t, c)
strip_thought n t c h k =
    first (suc n)
    ∙ ap₂ (λ (b : Str) (w : Str). strip_thinks (suc n) b (codes "\n\n" ++ w)) (after_thought t c h)
        (text_of_thought t c h)
    ∙ last (codes "\n\n" ++ t)
  where
    first :
        (m : ℕ)
        → strip_thinks (suc m) (thought t c) []
          ≡ strip_thinks m
              (remove_first (think_block (thought t c) 0) (thought t c))
              (codes "\n\n" ++ think_text (thought t c) 0)
    first m = unfold strip_thinks in rw (found_open t c, strip_thinks)

    last : (w : Str) → strip_thinks (suc n) c w ≡ some (w, c)
    last w = unfold strip_thinks in rw (k, strip_thinks)

trim-newlines : (t : Str) → trim (codes "\n\n" ++ t) ≡ trim t
unfolding trim
trim-newlines t = refl

-- The output behind its first unit.
abbrev init_rest : Str → Str → Str
init_rest t c = codes "think>" ++ (t ++ (think_tag_close ++ c))

-- An output that is one closed thinking span and an answer comes back as these two, trimmed: here
-- the tag that closes the span is the first one, the answer has no opening tag, and the output does
-- not end in white space.
pub parse_generation_qwen-thought :
    (t c : Str) (z : ℕ)
    → index_of think_tag_close (thought t c) ≡ some (7 + length t)
    → index_of think_tag_open c ≡ none
    → last? (thought t c) ≡ some z
    → is_space z ≡ false
    → parse_generation_qwen (thought t c) ≡ some (record { think = trim t; content = trim c })
unfolding parse_generation_qwen
parse_generation_qwen-thought t c z h k l e =
    ap (λ x. trimmed (strip_thinks (suc (length x)) x [])) kept
    ∙ ap trimmed (strip_thought (length (init_rest t c)) t c h k)
    ∙ ap (λ x. some (record { think = x; content = trim c })) (trim-newlines t)
  where
    kept : trim (thought t c) ≡ thought t c
    kept = trim_keep 60 z (init_rest t c) refl l e
