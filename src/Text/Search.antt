-- ===== src/Text/Search.antt =====
-- `startsWith`, `indexOf`, `includes` and the removal of a first occurrence.
use Prim.Native.Nat.{zero, suc, ◌<◌, ◌≤◌}
use swarm_engine.Prelude.{
  ℕ, ◌+◌, ◌≡◌, refl, ap, true, false, none, some, [], ◌∷◌, ◌++◌, arith, sym, ◌∙◌, length, take,
  drop, length-append, length-drop, take-append-drop,
}
use swarm_engine.Text.{Str, starts_with, index_of, remove_first}

pub starts_with-append : (p r : Str) → starts_with p (p ++ r) ≡ true
unfolding starts_with
starts_with-append [] r = refl
starts_with-append (a ∷ p) r = ground (arith, starts_with-append p r)

-- A string that starts with `p` is `p` and a rest.
pub eq_of_starts_with : (p s : Str) → starts_with p s ≡ true → s ≡ p ++ drop (length p) s
unfolding starts_with
eq_of_starts_with [] s h = refl
eq_of_starts_with (a ∷ p) [] h = ground arith
eq_of_starts_with (a ∷ p) (b ∷ s) h = ground (arith, eq_of_starts_with p s)

length-of_starts_with : (p s : Str) → starts_with p s ≡ true → length p ≤ length s
unfolding starts_with
length-of_starts_with [] s h = omega arith
length-of_starts_with (a ∷ p) [] h = ground arith
length-of_starts_with (a ∷ p) (b ∷ s) h = ground (arith, length-of_starts_with p s)

-- At the index that `indexOf` returns the pattern stands.
pub starts_with-index_of :
    (p s : Str) (i : ℕ) → index_of p s ≡ some i → starts_with p (drop i s) ≡ true
unfolding index_of
starts_with-index_of [] [] i h = refl
starts_with-index_of (a ∷ p) [] i h = ground arith
starts_with-index_of p (c ∷ s) zero h = ground arith
starts_with-index_of p (c ∷ s) (suc i) h = ground (arith, starts_with-index_of p s i)

-- `indexOf` stays within the string.
index_of-le : (p s : Str) (i : ℕ) → index_of p s ≡ some i → i ≤ length s
unfolding index_of
index_of-le p [] i h = ground arith
index_of-le p (c ∷ s) zero h = omega arith
index_of-le p (c ∷ s) (suc i) h = ground (arith, index_of-le p s i)

-- Before that index the pattern does not stand.
starts_with-before :
    (p s : Str) (i j : ℕ) → index_of p s ≡ some i → j < i → starts_with p (drop j s) ≡ false
unfolding index_of
starts_with-before p [] i j h lt = ground arith
starts_with-before p (c ∷ s) zero j h lt = absurd (omega arith)
starts_with-before p (c ∷ s) (suc i) zero h lt = ground arith
starts_with-before p (c ∷ s) (suc i) (suc j) h lt = ground (arith, starts_with-before p s i j)

-- A string without the pattern starts with it at no index.
pub starts_with-none :
    (p s : Str) (j : ℕ) → index_of p s ≡ none → j ≤ length s → starts_with p (drop j s) ≡ false
unfolding index_of
starts_with-none p [] zero h le = ground arith
starts_with-none p [] (suc j) h le = absurd (omega arith)
starts_with-none p (c ∷ s) zero h le = ground arith
starts_with-none p (c ∷ s) (suc j) h le = ground (arith, starts_with-none p s j)

-- A found pattern splits the string in three.
eq_of_index_of :
    (p s : Str) (i : ℕ) → index_of p s ≡ some i → s ≡ take i s ++ (p ++ drop (length p) (drop i s))
eq_of_index_of p s i h =
    sym (take-append-drop i s)
    ∙ ap (take i s ++◌) (eq_of_starts_with p (drop i s) (starts_with-index_of p s i h))

pub index-add-length-le : (p s : Str) (i : ℕ) → index_of p s ≡ some i → i + length p ≤ length s
index-add-length-le p s i h = omega (
  arith,
  index_of-le p s i h,
  length-of_starts_with p (drop i s) (starts_with-index_of p s i h),
  length-drop i s,
)

length-take : (i : ℕ) (s : Str) → i ≤ length s → length (take i s) ≡ i
length-take zero s h = omega arith
length-take (suc i) [] h = absurd (omega arith)
length-take (suc i) (c ∷ s) h = omega (arith, length-take i s)

-- The removal of a pattern that is found takes its length off.
pub length-remove_first :
    (p s : Str) (i : ℕ) → index_of p s ≡ some i → length (remove_first p s) + length p ≡ length s
unfolding remove_first
length-remove_first p s i h = ground (
  arith,
  length-append (take i s) (drop (i + length p) s),
  length-take i s (index_of-le p s i h),
  length-drop (i + length p) s,
  index-add-length-le p s i h,
)
