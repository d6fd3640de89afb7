-- ===== src/LineBuffer.antt =====
-- The line buffer of the two stream readers, src/frontend/src/services/http-stream.ts and
-- src/frontend/src/services/chat.tsx: a chunk is appended, the complete lines are taken off, and the
-- incomplete last line stays.
use swarm_engine.Prelude.{
  ℕ, ◌≡◌, refl, sym, ap, ap₂, ◌∙◌, Bool, List, [], ◌∷◌, ◌++◌, append-nil, append_assoc, ◌==◌, init,
}
use swarm_engine.Text.{Str, split}
use swarm_engine.Text.Split.{popped, split-append, split-IsCons, IsCons}

-- The test of `split('\n')`.
abbrev is_newline : ℕ → Bool
is_newline c = c == 10

-- `buffer += chunk; lines = buffer.split('\n'); buffer = lines.pop() || ''`
unfoldable pub feed : Str → Str → List Str × Str
unfolding split
feed buffer chunk = let lines = split is_newline (buffer ++ chunk) in (init lines, popped lines)

-- The lines of a sequence of chunks, and the buffer after them.
unfoldable pub feed_all : Str → List Str → List Str × Str
unfolding feed
feed_all buffer [] = ([], buffer)
feed_all buffer (c ∷ cs) =
    let (lines, rest) = feed buffer c in
    let (more, last) = feed_all rest cs in (lines ++ more, last)

abbrev pub concat : List Str → Str
concat [] = []
concat (c ∷ cs) = c ++ concat cs

init-append_cons : (xs ys : List Str) → IsCons ys → init (xs ++ ys) ≡ xs ++ init ys
init-append_cons [] ys h = refl
init-append_cons (x ∷ []) [] h = elim h [ ]
init-append_cons (x ∷ []) (y ∷ ys) h = refl
init-append_cons (x ∷ z ∷ xs) ys h = ap (x ∷◌) (init-append_cons (z ∷ xs) ys h)

popped-append_cons : (xs ys : List Str) → IsCons ys → popped (xs ++ ys) ≡ popped ys
popped-append_cons [] ys h = refl
popped-append_cons (x ∷ []) [] h = elim h [ ]
popped-append_cons (x ∷ []) (y ∷ ys) h = refl
popped-append_cons (x ∷ z ∷ xs) ys h = popped-append_cons (z ∷ xs) ys h

-- After any text, more chunks continue the lines of that text.
feed_all-after :
    (a : Str) (cs : List Str)
    → (init (split is_newline a) ++ (feed_all (popped (split is_newline a)) cs).0
        ≡ init (split is_newline (a ++ concat cs)))
      × ((feed_all (popped (split is_newline a)) cs).1 ≡ popped (split is_newline (a ++ concat cs)))
unfolding feed_all
feed_all-after a [] = (
  append-nil (init (split is_newline a)) ∙ ap (λ x. init (split is_newline x)) (sym (append-nil a)),
  ap (λ x. popped (split is_newline x)) (sym (append-nil a)),
)
feed_all-after a (c ∷ cs) = (
  sym (
        append_assoc (init (split is_newline a))
          (init (split is_newline (popped (split is_newline a) ++ c)))
          (feed_all (popped (split is_newline (popped (split is_newline a) ++ c))) cs).0)
      ∙ ap₂ (λ (x : List Str) (y : Str). x ++ (feed_all y cs).0) (sym lines) (sym rest)
      ∙ (feed_all-after (a ++ c) cs).0
      ∙ ap (λ x. init (split is_newline x)) (append_assoc a c (concat cs)),
  ap (λ y. (feed_all y cs).1) (sym rest)
      ∙ (feed_all-after (a ++ c) cs).1
      ∙ ap (λ x. popped (split is_newline x)) (append_assoc a c (concat cs)),
)
  where
    nonempty : IsCons (split is_newline (popped (split is_newline a) ++ c))
    nonempty = split-IsCons is_newline (popped (split is_newline a) ++ c)

    lines :
        init (split is_newline (a ++ c))
        ≡ init (split is_newline a) ++ init (split is_newline (popped (split is_newline a) ++ c))
    lines =
        ap init (split-append is_newline a c)
        ∙ init-append_cons (init (split is_newline a))
            (split is_newline (popped (split is_newline a) ++ c)) nonempty

    rest :
        popped (split is_newline (a ++ c))
        ≡ popped (split is_newline (popped (split is_newline a) ++ c))
    rest =
        ap popped (split-append is_newline a c)
        ∙ popped-append_cons (init (split is_newline a))
            (split is_newline (popped (split is_newline a) ++ c)) nonempty

-- The lines that a stream gives do not depend on how the network cuts it into chunks: chunk by
-- chunk, they are those of the whole text, and so is the buffer that is left.
pub feed_all-eq-feed : (cs : List Str) → feed_all [] cs ≡ feed [] (concat cs)
unfolding feed
feed_all-eq-feed cs = let (p, q) = start in ap₂ (λ (x : List Str) (y : Str). (x, y)) p q
  where
    start :
        ((feed_all [] cs).0 ≡ init (split is_newline (concat cs)))
        × ((feed_all [] cs).1 ≡ popped (split is_newline (concat cs)))
    start = feed_all-after [] cs
