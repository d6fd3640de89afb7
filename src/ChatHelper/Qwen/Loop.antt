-- ===== src/ChatHelper/Qwen/Loop.antt =====
-- The rounds of the loop of `parseGenerationQwen`, and its fuel.
use Prim.Native.Nat.{zero, suc, ◌<◌, ◌≤◌, max, min}
use swarm_engine.Prelude.{
  ℕ, ◌+◌, ◌-◌, ◌≡◌, refl, sym, ap, ap₂, subst, true, false, Option, none, some, [], ◌∷◌, ◌++◌, ltb,
  arith, ◌∙◌, if◌then◌else◌, length, take, drop, get_elem?, append_assoc, Option-cases, Bool-cases,
  inl, inr, some_inj, append-nil, take-append-drop, length-drop,
}
use swarm_engine.Text.{Str, codes, index_of, starts_with, substring, remove_first, trim, includes}
use swarm_engine.Text.Search.{
  starts_with-append, eq_of_starts_with, starts_with-index_of, length-remove_first,
  index-add-length-le,
}
use swarm_engine.Text.Infix.{
  get_elem?-starts_with, get_elem?-drop, index_of-extend, drop-drop, includes-trim,
}
use swarm_engine.ChatHelper.Qwen.{
  think_tag_open, think_tag_close, QwenGenerationMap, closes_after, think_stop, think_text,
  think_block, strip_thinks, trimmed, parse_generation_qwen,
}

-- The tags do not overlap: a closing tag after an opening one begins behind it.
closing_behind :
    (b : Str) (s e : ℕ)
    → index_of think_tag_open b ≡ some s
    → index_of think_tag_close b ≡ some e
    → s < e
    → s + 7 ≤ e
closing_behind b s e hs he lt = go (e - s) (omega arith) refl
  where
    opened : (j : ℕ) → j < 7 → get_elem? b (s + j) ≡ get_elem? think_tag_open j
    opened j h =
        sym (get_elem?-drop b s j)
        ∙ get_elem?-starts_with think_tag_open (drop s b) j
            (starts_with-index_of think_tag_open b s hs) h

    closed : get_elem? b e ≡ some 60
    closed =
        ap (get_elem? b) {y = e + 0} (omega arith)
        ∙ sym (get_elem?-drop b e 0)
        ∙ get_elem?-starts_with think_tag_close (drop e b) 0
            (starts_with-index_of think_tag_close b e he) (omega arith)

    at : (j : ℕ) → j < 7 → e ≡ s + j → get_elem? think_tag_open j ≡ some 60
    at j h k = sym (opened j h) ∙ ap (get_elem? b) (sym k) ∙ closed

    go : (k : ℕ) → 0 < k → e - s ≡ k → s + 7 ≤ e
    go zero p h = absurd (omega arith)
    go (suc zero) p h = absurd (omega (arith, some_inj (at 1 (omega arith) (omega arith))))
    go (suc (suc zero)) p h = absurd (omega (arith, some_inj (at 2 (omega arith) (omega arith))))
    go (suc (suc (suc zero))) p h =
        absurd (omega (arith, some_inj (at 3 (omega arith) (omega arith))))
    go (suc (suc (suc (suc zero)))) p h =
        absurd (omega (arith, some_inj (at 4 (omega arith) (omega arith))))
    go (suc (suc (suc (suc (suc zero))))) p h =
        absurd (omega (arith, some_inj (at 5 (omega arith) (omega arith))))
    go (suc (suc (suc (suc (suc (suc zero)))))) p h =
        absurd (omega (arith, some_inj (at 6 (omega arith) (omega arith))))
    go (suc (suc (suc (suc (suc (suc (suc k))))))) p h = omega arith

removed :
    (p b : Str) (s : ℕ)
    → index_of p b ≡ some s
    → remove_first p b ≡ take s b ++ drop (s + length p) b
unfolding remove_first
removed p b s h = rw (h, remove_first)

-- What stands behind the span that a round cuts out.
abbrev pub behind : Str → Option ℕ → ℕ → Str
behind b none s = []
behind b (some e) s = if ltb s e then drop (e + 8) b else []

take_all : (k : ℕ) (t : Str) → length t ≤ k → take k t ≡ t
take_all zero [] h = refl
take_all zero (c ∷ t) h = absurd (omega arith)
take_all (suc k) [] h = refl
take_all (suc k) (c ∷ t) h = ap (c ∷◌) (take_all k t (omega arith))

drop-length-append : (p r : Str) → drop (length p) (p ++ r) ≡ r
drop-length-append [] r = refl
drop-length-append (c ∷ p) r = drop-length-append p r

substring-eq : (b : Str) (i j : ℕ) → i ≤ j → substring b i j ≡ take (j - i) (drop i b)
unfolding substring
substring-eq b i j h =
    ap₂ (λ (k : ℕ) (d : Str). take k d) {x = max i j - min i j} (omega arith)
      (ap (λ k. drop k b) {x = min i j} (omega arith))

after_open :
    (b : Str) (s : ℕ)
    → index_of think_tag_open b ≡ some s
    → drop s b ≡ think_tag_open ++ drop (s + 7) b
after_open b s h =
    eq_of_starts_with think_tag_open (drop s b) (starts_with-index_of think_tag_open b s h)
    ∙ ap (think_tag_open ++◌) (drop-drop b s 7)

after_close :
    (b : Str) (e : ℕ)
    → index_of think_tag_close b ≡ some e
    → drop e b ≡ think_tag_close ++ drop (e + 8) b
after_close b e h =
    eq_of_starts_with think_tag_close (drop e b) (starts_with-index_of think_tag_close b e h)
    ∙ ap (think_tag_close ++◌) (drop-drop b e 8)

-- With the closing tag behind, the span runs up to it.
closed_span :
    (b : Str) (s e : ℕ)
    → s + 7 ≤ e
    → index_of think_tag_close b ≡ some e
    → drop (s + 7) b ≡ substring b (s + 7) e ++ (think_tag_close ++ drop (e + 8) b)
closed_span b s e le he =
    sym (take-append-drop (e - (s + 7)) (drop (s + 7) b))
    ∙ ap₂ (λ (x y : Str). x ++ y) (sym (substring-eq b (s + 7) e le))
        (drop-drop b (s + 7) (e - (s + 7))
          ∙ ap (λ k. drop k b) {x = s + 7 + (e - (s + 7))} (omega arith)
          ∙ after_close b e he)

-- With none, it runs to the end.
open_span : (b : Str) (s : ℕ) → s + 7 ≤ length b → drop (s + 7) b ≡ substring b (s + 7) (length b)
open_span b s le = sym (
    substring-eq b (s + 7) (length b) le
    ∙ take_all (length b - (s + 7)) (drop (s + 7) b) (omega (arith, length-drop (s + 7) b)))

stop_closed : (b : Str) (s e : ℕ) → s < e → think_stop b (some e) s ≡ e
unfolding think_stop
stop_closed b s e h = ground arith

-- The thinking text of a closed span stands between the tags.
pub think_text-closed :
    (b : Str) (s e : ℕ)
    → s + 7 ≤ e
    → index_of think_tag_close b ≡ some e
    → think_text b s ≡ take (e - (s + 7)) (drop (s + 7) b)
unfolding think_text
think_text-closed b s e le h =
    ap (λ o. substring b (s + 7) (think_stop b o s)) h
    ∙ ap (substring b (s + 7)) (stop_closed b s e (omega arith))
    ∙ substring-eq b (s + 7) e le

span_of :
    (b : Str) (s : ℕ) (o : Option ℕ)
    → index_of think_tag_open b ≡ some s
    → index_of think_tag_close b ≡ o
    → drop (s + 7) b
      ≡ (substring b (s + 7) (think_stop b o s)
          ++ (if closes_after o s then think_tag_close else []))
        ++ behind b o s
unfolding think_stop closes_after
span_of b s none h k =
    open_span b s (index-add-length-le think_tag_open b s h) ∙ sym (append-nil _ ∙ append-nil _)
span_of b s (some e) h k = elim (Bool-cases (ltb s e)) [
  | inl lt ↦ rw lt (
      closed_span b s e (closing_behind b s e h k (ground arith)) k
      ∙ sym (append_assoc (substring b (s + 7) e) think_tag_close (drop (e + 8) b)))
  | inr ge ↦
      rw ge (
        open_span b s (index-add-length-le think_tag_open b s h)
        ∙ sym (append-nil _ ∙ append-nil _))
]

-- The string that `replace` looks for is what stands from the opening tag on.
block_span :
    (b : Str) (s : ℕ)
    → index_of think_tag_open b ≡ some s
    → drop s b ≡ think_block b s ++ behind b (index_of think_tag_close b) s
unfolding think_block
block_span b s h =
    after_open b s h ∙ ap (think_tag_open ++◌) (span_of b s (index_of think_tag_close b) h refl)

found_block :
    (b : Str) (s : ℕ) → index_of think_tag_open b ≡ some s → index_of (think_block b s) b ≡ some s
unfolding think_block
found_block b s h =
    index_of-extend think_tag_open
      (think_text b s
        ++ (if closes_after (index_of think_tag_close b) s then think_tag_close else []))
      b s h
      (subst (λ t. starts_with (think_block b s) t ≡ true) (sym (block_span b s h))
        (starts_with-append (think_block b s) (behind b (index_of think_tag_close b) s)))

-- So `replace` cuts out that span, and nothing else.
pub remove_first-think_block :
    (b : Str) (s : ℕ)
    → index_of think_tag_open b ≡ some s
    → remove_first (think_block b s) b ≡ take s b ++ behind b (index_of think_tag_close b) s
remove_first-think_block b s h =
    removed (think_block b s) b s (found_block b s h) ∙ ap (take s b ++◌) rest
  where
    rest : drop (s + length (think_block b s)) b ≡ behind b (index_of think_tag_close b) s
    rest =
        sym (drop-drop b s (length (think_block b s)))
        ∙ ap (drop (length (think_block b s))) (block_span b s h)
        ∙ drop-length-append (think_block b s) (behind b (index_of think_tag_close b) s)

7-le-think_block : (b : Str) (s : ℕ) → 7 ≤ length (think_block b s)
unfolding think_block
7-le-think_block b s = omega arith

-- Each round makes the buffer shorter.
shorter :
    (b : Str) (s : ℕ)
    → index_of think_tag_open b ≡ some s
    → length (remove_first (think_block b s) b) < length b
shorter b s h =
    omega
      (arith, length-remove_first (think_block b s) b s (found_block b s h), 7-le-think_block b s)

-- Fuel beyond the length of the buffer is enough, and what is left has no opening tag.
strip_thinks_total :
    (fuel : ℕ) (b think : Str)
    → length b < fuel
    → (t c : Str) × (strip_thinks fuel b think ≡ some (t, c)) × (index_of think_tag_open c ≡ none)
unfolding strip_thinks
strip_thinks_total zero b think h = absurd (omega arith)
strip_thinks_total (suc fuel) b think h = elim (Option-cases (index_of think_tag_open b)) [
  | inl e ↦ (think, b, rw (e, strip_thinks), e)
  | inr (s, e) ↦
      let (t, c, p, q) =
        strip_thinks_total fuel (remove_first (think_block b s) b)
          (think ++ (codes "\n\n" ++ think_text b s)) (omega (arith, shorter b s e)) in
      (t, c, rw (e, strip_thinks) p, q)
]

-- `parseGenerationQwen` terminates on every buffer, and the content that it returns has no opening
-- tag in it.
pub parse_generation_qwen_total :
    (buffer : Str)
    → (m : QwenGenerationMap) × (parse_generation_qwen buffer ≡ some m)
      × (includes think_tag_open m.content ≡ false)
unfolding parse_generation_qwen includes
parse_generation_qwen_total buffer =
    let (t, c, p, q) =
      strip_thinks_total (suc (length (trim buffer))) (trim buffer) [] (omega arith) in
    (
      record { think = trim t; content = trim c },
      ap trimmed p,
      includes-trim think_tag_open c (rw q refl),
    )
