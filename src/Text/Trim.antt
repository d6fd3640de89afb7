-- ===== src/Text/Trim.antt =====
-- `trim` and the white space at the ends of a string.
use swarm_engine.Prelude.{ℕ, ◌≡◌, refl, false, some, [], ◌∷◌, arith, last?}
use swarm_engine.Text.{Str, is_space, trim_end, trim, cons_trimmed}

-- A string that does not end in white space is left alone at its end.
trim_end_keep : (s : Str) (c : ℕ) → last? s ≡ some c → is_space c ≡ false → trim_end s ≡ s
unfolding trim_end
trim_end_keep [] c h e = refl
trim_end_keep (d ∷ []) c h e = ground arith
trim_end_keep (d ∷ x ∷ s) c h e = rw (trim_end_keep (x ∷ s) c h e) refl

pub trim_keep :
    (d c : ℕ) (s : Str)
    → is_space d ≡ false
    → last? (d ∷ s) ≡ some c
    → is_space c ≡ false
    → trim (d ∷ s) ≡ d ∷ s
unfolding trim
trim_keep d c s e h k = rw e (trim_end_keep (d ∷ s) c h k)

-- The result of `trim` has no white space at its end.
trim_end-clean : (s : Str) (c : ℕ) → last? (trim_end s) ≡ some c → is_space c ≡ false
unfolding trim_end
trim_end-clean [] c h = cc
trim_end-clean (d ∷ s) c h = go d (trim_end s) (trim_end-clean s c) h
  where
    go :
        (d : ℕ) (t : Str)
        → (last? t ≡ some c → is_space c ≡ false)
        → last? (cons_trimmed d t) ≡ some c
        → is_space c ≡ false
    go d [] ih h = ground arith
    go d (x ∷ t) ih h = ih h
