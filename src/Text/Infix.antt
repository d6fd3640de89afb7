-- ===== src/Text/Infix.antt =====
-- Where a pattern stands: extensions of a pattern, parts of a text, single units.
use Prim.Native.Nat.{zero, suc, ◌<◌, ◌≤◌}
use swarm_engine.Prelude.{
  ℕ, ◌+◌, ◌≡◌, refl, ap, true, false, none, some, [], ◌∷◌, ◌++◌, arith, ◌∙◌, Bool-cases,
  Option-cases, inl, inr, length, drop, get_elem?,
}
use swarm_engine.Text.{
  Str, starts_with, index_of, includes, is_space, trim_start, trim_end, trim, cons_trimmed,
}
use swarm_engine.Text.Search.{starts_with-none, index-add-length-le}

starts_with-left : (p q s : Str) → starts_with (p ++ q) s ≡ true → starts_with p s ≡ true
unfolding starts_with
starts_with-left [] q s h = refl
starts_with-left (a ∷ p) q [] h = h
starts_with-left (a ∷ p) q (b ∷ s) h = ground (arith, starts_with-left p q s)

starts_with-grow : (p s t : Str) → starts_with p s ≡ true → starts_with p (s ++ t) ≡ true
unfolding starts_with
starts_with-grow [] s t h = refl
starts_with-grow (a ∷ p) [] t h = ground arith
starts_with-grow (a ∷ p) (b ∷ s) t h = ground (arith, starts_with-grow p s t)

-- A pattern and its extension are found at one place, if the extension stands there.
pub index_of-extend :
    (p q s : Str) (i : ℕ)
    → index_of p s ≡ some i
    → starts_with (p ++ q) (drop i s) ≡ true
    → index_of (p ++ q) s ≡ some i
unfolding index_of
index_of-extend p q [] zero h k = rw k refl
index_of-extend [] q [] (suc i) h k = ground arith
index_of-extend (a ∷ p) q [] (suc i) h k = ground arith
index_of-extend p q (c ∷ s) zero h k = ground arith
index_of-extend p q (c ∷ s) (suc i) h k = elim (Bool-cases (starts_with (p ++ q) (c ∷ s))) [
  | inl e ↦ ground (arith, starts_with-left p q (c ∷ s) e)
  | inr e ↦ ground (arith, e, index_of-extend p q s i)
]

-- A text that is long enough decides on its own what it starts with.
starts_with-long : (p s t : Str) → length p ≤ length s → starts_with p (s ++ t) ≡ starts_with p s
unfolding starts_with
starts_with-long [] s t h = refl
starts_with-long (a ∷ p) [] t h = absurd (omega arith)
starts_with-long (a ∷ p) (b ∷ s) t h = ground (arith, starts_with-long p s t)

-- A pattern that is found stays the first one when the text goes on.
pub index_of-grow : (p s t : Str) (i : ℕ) → index_of p s ≡ some i → index_of p (s ++ t) ≡ some i
unfolding index_of
index_of-grow [] [] [] i h = h
index_of-grow [] [] (c ∷ t) i h = h
index_of-grow (a ∷ p) [] t i h = cc
index_of-grow p (c ∷ s) t zero h = ground (arith, starts_with-grow p (c ∷ s) t)
index_of-grow p (c ∷ s) t (suc i) h = ground (
  arith,
  starts_with-long p (c ∷ s) t,
  index-add-length-le p (c ∷ s) (suc i),
  index_of-grow p s t i,
)

-- What stands somewhere is found.
index_of-found :
    (p s : Str) (i : ℕ)
    → i ≤ length s
    → starts_with p (drop i s) ≡ true
    → (j : ℕ) × (index_of p s ≡ some j)
index_of-found p s i le h = elim (Option-cases (index_of p s)) [
  | inl e ↦ absurd (cc (starts_with-none p s i e le, h))
  | inr f ↦ f
]

-- A part of a text without the pattern is without it.
index_of-none_tail : (p : Str) (c : ℕ) (s : Str) → index_of p (c ∷ s) ≡ none → index_of p s ≡ none
unfolding index_of
index_of-none_tail p c s h = ground arith

index_of-none_prefix : (p s t : Str) → index_of p (s ++ t) ≡ none → index_of p s ≡ none
unfolding index_of
index_of-none_prefix [] [] [] h = h
index_of-none_prefix [] [] (c ∷ t) h = ground arith
index_of-none_prefix (a ∷ p) [] t h = refl
index_of-none_prefix p (c ∷ s) t h = elim (Bool-cases (starts_with p (c ∷ s))) [
  | inl e ↦ ground (arith, starts_with-grow p (c ∷ s) t e)
  | inr e ↦ ground (arith, e, index_of-none_prefix p s t)
]

-- What a pattern says of single units.
pub get_elem?-starts_with :
    (p s : Str) (j : ℕ) → starts_with p s ≡ true → j < length p → get_elem? s j ≡ get_elem? p j
unfolding starts_with
get_elem?-starts_with [] s j h lt = absurd (omega arith)
get_elem?-starts_with (a ∷ p) [] j h lt = ground arith
get_elem?-starts_with (a ∷ p) (b ∷ s) zero h lt = ground arith
get_elem?-starts_with (a ∷ p) (b ∷ s) (suc j) h lt = ground (arith, get_elem?-starts_with p s j)

pub get_elem?-drop : (s : Str) (i j : ℕ) → get_elem? (drop i s) j ≡ get_elem? s (i + j)
get_elem?-drop s zero j = ap (get_elem? s) (omega arith)
get_elem?-drop [] (suc i) j = ground arith
get_elem?-drop (c ∷ s) (suc i) j =
    get_elem?-drop s i j ∙ ap (get_elem? (c ∷ s)) {x = suc (i + j)} (omega arith)

drop-nil : (i : ℕ) → drop {A = ℕ} i [] ≡ []
drop-nil zero = refl
drop-nil (suc i) = refl

pub drop-drop : (s : Str) (i j : ℕ) → drop j (drop i s) ≡ drop (i + j) s
drop-drop s zero j = ap (λ k. drop k s) (omega arith)
drop-drop [] (suc i) j = cc (drop-nil j, drop-nil (suc i + j))
drop-drop (c ∷ s) (suc i) j =
    drop-drop s i j ∙ ap (λ k. drop k (c ∷ s)) {x = suc (i + j)} (omega arith)

-- `trim` takes a part of its text.
trim_start-absent : (p s : Str) → index_of p s ≡ none → index_of p (trim_start s) ≡ none
unfolding trim_start
trim_start-absent p [] h = h
trim_start-absent p (c ∷ s) h = ground (arith, trim_start-absent p s (index_of-none_tail p c s h))

trim_end-prefix : (s : Str) → (t : Str) × (s ≡ trim_end s ++ t)
unfolding trim_end
trim_end-prefix [] = ([], refl)
trim_end-prefix (c ∷ s) = let (t, e) = trim_end-prefix s in go (trim_end s) t e
  where
    go : (r t : Str) → s ≡ r ++ t → (u : Str) × (c ∷ s ≡ cons_trimmed c r ++ u)
    go [] t e = elim (Bool-cases (is_space c)) [
      | inl b ↦ (c ∷ t, rw b (ap (c ∷◌) e))
      | inr b ↦ (t, rw b (ap (c ∷◌) e))
    ]
    go (d ∷ r) t e = (t, ap (c ∷◌) e)

pub includes-trim : (p s : Str) → includes p s ≡ false → includes p (trim s) ≡ false
unfolding includes trim
includes-trim p s h = rw absent refl
  where
    started : index_of p (trim_start s) ≡ none
    started = trim_start-absent p s (ground arith)

    absent : index_of p (trim_end (trim_start s)) ≡ none
    absent =
        let (t, e) = trim_end-prefix (trim_start s) in
        index_of-none_prefix p (trim_end (trim_start s)) t (rw (← e) started)
