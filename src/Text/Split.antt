-- ===== src/Text/Split.antt =====
-- `split`: what splitting a concatenation gives.
use swarm_engine.Prelude.{
  ℕ, ◌≡◌, refl, Bool, true, false, none, some, List, [], ◌∷◌, ◌++◌, if◌then◌else◌, Bool-cases, inl,
  inr, last?, init,
}
use swarm_engine.Text.{Str, cons_head, split}

-- What `pop() || ''` takes from the end of a list of strings.
abbrev pub popped : List Str → Str
popped ls = elim (last? ls) [ none ↦ [] | some l ↦ l ]

-- The pieces of `a` but for the last, then the pieces of that last one and `b`.
abbrev resplit : (ℕ → Bool) → List Str → Str → List Str
resplit sep ls b = init ls ++ split sep (popped ls ++ b)

-- `split` never returns an empty list, so its head can be named.
abbrev pub IsCons : List Str → Type 0
IsCons [] = ⊥
IsCons (_ ∷ _) = Unit {0}

pub split-IsCons : (sep : ℕ → Bool) (s : Str) → IsCons (split sep s)
unfolding split
split-IsCons sep [] = tt
split-IsCons sep (c ∷ s) = go (sep c) (split sep s) (split-IsCons sep s)
  where
    go : (b : Bool) (ls : List Str) → IsCons ls → IsCons (if b then [] ∷ ls else cons_head c ls)
    go true ls h = tt
    go false [] h = elim h [ ]
    go false (l ∷ ls) h = tt

resplit-nil :
    (sep : ℕ → Bool) (ls : List Str) (b : Str)
    → IsCons ls
    → [] ∷ resplit sep ls b ≡ resplit sep ([] ∷ ls) b
resplit-nil sep [] b h = elim h [ ]
resplit-nil sep (l ∷ ls) b h = refl

resplit-cons_head :
    (sep : ℕ → Bool) (c : ℕ) (ls : List Str) (b : Str)
    → sep c ≡ false
    → IsCons ls
    → cons_head c (resplit sep ls b) ≡ resplit sep (cons_head c ls) b
unfolding split
resplit-cons_head sep c [] b e h = elim h [ ]
resplit-cons_head sep c (l ∷ []) b e h = rw e
resplit-cons_head sep c (l ∷ m ∷ r) b e h = refl

-- Splitting is incremental.
pub split-append : (sep : ℕ → Bool) (a b : Str) → split sep (a ++ b) ≡ resplit sep (split sep a) b
unfolding split
split-append sep [] b = refl
split-append sep (c ∷ a) b = elim (Bool-cases (sep c)) [
  | inl e ↦ rw (e, split-append sep a b) (resplit-nil sep (split sep a) b (split-IsCons sep a))
  | inr e ↦
      rw (e, split-append sep a b) (resplit-cons_head sep c (split sep a) b e (split-IsCons sep a))
]
