-- ===== src/Components/ChatMarkdown/Math.antt =====
-- The formulas of src/frontend/src/components/inputs/chat-markdown.tsx.
use swarm_engine.Prelude.{
  ℕ, ◌≡◌, refl, sym, ap, subst, ◌∙◌, fun_ext, inl, inr, Bool, true, false, ◌||◌, [], ◌∷◌, arith,
  ◌==◌, ==_iff, Bool-cases,
}
use swarm_engine.Text.{Str}
use swarm_engine.Components.ChatMarkdown.{replace_escaped, preprocess_math, expand_replacement}

abbrev dollar : Str
dollar = b'$' ∷ []

-- A unit that is no backslash stays, and what follows it is read on its own.
keeps_plain :
    (p : ℕ → Bool) (a : ℕ) (s : Str)
    → (a == 92) ≡ false
    → replace_escaped p dollar (a ∷ s) ≡ a ∷ replace_escaped p dollar s
unfolding replace_escaped
keeps_plain p a [] h = refl
keeps_plain p a (b ∷ s) h = ground arith

-- A backslash before a unit that does not pass stays.
keeps_backslash :
    (p : ℕ → Bool) (b : ℕ) (s : Str)
    → p b ≡ false
    → replace_escaped p dollar (92 ∷ b ∷ s) ≡ 92 ∷ replace_escaped p dollar (b ∷ s)
unfolding replace_escaped
keeps_backslash p b s h = ground arith

replaces :
    (p : ℕ → Bool) (b : ℕ) (s : Str)
    → p b ≡ true
    → replace_escaped p dollar (92 ∷ b ∷ s) ≡ b'$' ∷ replace_escaped p dollar s
unfolding replace_escaped
replaces p b s h = ground arith

abbrev either : (ℕ → Bool) → (ℕ → Bool) → ℕ → Bool
either p q c = p c || q c

either_left : (p q : ℕ → Bool) (c : ℕ) → p c ≡ true → either p q c ≡ true
either_left p q c h = rw h refl

either_right : (p q : ℕ → Bool) (c : ℕ) → p c ≡ false → q c ≡ true → either p q c ≡ true
either_right p q c h k = rw h k

either_neither : (p q : ℕ → Bool) (c : ℕ) → p c ≡ false → q c ≡ false → either p q c ≡ false
either_neither p q c h k = rw h k

-- What a text begins with after a replacement: its first unit, or a dollar.
head_kept :
    (p q : ℕ → Bool) (b : ℕ) (s : Str)
    → q b ≡ false
    → q b'$' ≡ false
    → (h : ℕ) × (t : Str) × (replace_escaped p dollar (b ∷ s) ≡ h ∷ t) × (q h ≡ false)
unfolding replace_escaped
head_kept p q b [] k d = (b, [], refl, k)
head_kept p q b (c ∷ s) k d = elim (Bool-cases (b == 92)) [
  | inr e ↦ (b, replace_escaped p dollar (c ∷ s), keeps_plain p b (c ∷ s) e, k)
  | inl e ↦ elim (Bool-cases (p c)) [
    | inl u ↦ (b'$', replace_escaped p dollar s, ground arith, d)
    | inr u ↦ (b, replace_escaped p dollar (c ∷ s), ground arith, k)
  ]
]

module _ (p q : ℕ → Bool) (q_backslash : q 92 ≡ false) (q_dollar : q b'$' ≡ false) where
  abbrev Merges : Str → Type 0
  Merges s =
      replace_escaped q dollar (replace_escaped p dollar s) ≡ replace_escaped (either p q) dollar s

  Merges-plain : (a : ℕ) (s : Str) → (a == 92) ≡ false → Merges s → Merges (a ∷ s)
  Merges-plain a s e ih =
      ap (replace_escaped q dollar) (keeps_plain p a s e)
      ∙ keeps_plain q a (replace_escaped p dollar s) e
      ∙ ap (a ∷◌) ih
      ∙ sym (keeps_plain (either p q) a s e)

  Merges-backslash : (b : ℕ) (s : Str) → Merges s → Merges (b ∷ s) → Merges (92 ∷ b ∷ s)
  Merges-backslash b s ih ihb = elim (Bool-cases (p b)) [
    | inl u ↦
        ap (replace_escaped q dollar) (replaces p b s u)
        ∙ keeps_plain q b'$' (replace_escaped p dollar s) refl
        ∙ ap (b'$' ∷◌) ih
        ∙ sym (replaces (either p q) b s (either_left p q b u))
    | inr u ↦ ap (replace_escaped q dollar) (keeps_backslash p b s u) ∙ elim (Bool-cases (q b)) [
      | inl v ↦
          ap (λ t. replace_escaped q dollar (92 ∷ t)) (keeps_plain p b s (differs v))
          ∙ replaces q b (replace_escaped p dollar s) v
          ∙ ap (b'$' ∷◌) ih
          ∙ sym (replaces (either p q) b s (either_right p q b u v))
      | inr v ↦
          let (h, t, e, k) = head_kept p q b s v q_dollar in
          ap (λ t. replace_escaped q dollar (92 ∷ t)) e
          ∙ keeps_backslash q h t k
          ∙ ap (λ t. 92 ∷ replace_escaped q dollar t) (sym e)
          ∙ ap (92 ∷◌) ihb
          ∙ sym (keeps_backslash (either p q) b s (either_neither p q b u v))
    ]
  ]
    where
      differs : q b ≡ true → (b == 92) ≡ false
      differs v = elim (Bool-cases (b == 92)) [
        | inl e ↦ absurd (clash (ap q (sym ((==_iff b 92).0 e)) ∙ v))
        | inr e ↦ e
      ]
        where
          clash : q 92 ≡ true → ⊥
          clash h = cc

  -- Two replacements in turn are one replacement of either.
  merges : (s : Str) → Merges s
  unfolding replace_escaped
  merges [] = refl
  merges (a ∷ []) = refl
  merges (a ∷ b ∷ s) = elim (Bool-cases (a == 92)) [
    | inl e ↦
        subst (λ c. Merges (c ∷ b ∷ s)) (sym ((==_iff a 92).0 e))
          (Merges-backslash b s (merges s) (merges (b ∷ s)))
    | inr e ↦ Merges-plain a (b ∷ s) e (merges (b ∷ s))
  ]

-- The units that begin and end a formula behind a backslash.
abbrev pub is_math_delimiter : ℕ → Bool
is_math_delimiter =
    either (either (either (λ c. c == b'[') (λ c. c == b']')) (λ c. c == b'(')) (λ c. c == b')')

once_math : (s : Str) → preprocess_math s ≡ replace_escaped is_math_delimiter dollar s
unfolding preprocess_math expand_replacement
once_math s =
    let p : ℕ → Bool = λ c. c == b'[' in
    let q = either p (λ c. c == b']') in
    let r = either q (λ c. c == b'(') in
    ap (λ t. replace_escaped (λ c. c == b')') dollar (replace_escaped (λ c. c == b'(') dollar t))
      (merges p (λ c. c == b']') refl refl s)
    ∙ ap (replace_escaped (λ c. c == b')') dollar) (merges q (λ c. c == b'(') refl refl s)
    ∙ merges r (λ c. c == b')') refl refl s

or_self : (b : Bool) → (b || b) ≡ b
or_self true = refl
or_self false = refl

-- The four replacements of `preprocessMath` are one pass over the text, which makes each backslash with
-- one of `[`, `]`, `(` and `)` behind it a single `$`, for a block formula as for an inline one; calling
-- it again changes nothing more.
pub preprocess_math_lem :
    (s : Str)
    → (preprocess_math s ≡ replace_escaped is_math_delimiter (b'$' ∷ []) s)
      × (preprocess_math (preprocess_math s) ≡ preprocess_math s)
preprocess_math_lem s = (
  once_math s,
  once_math (preprocess_math s)
      ∙ ap (replace_escaped is_math_delimiter dollar) (once_math s)
      ∙ merges is_math_delimiter is_math_delimiter refl refl s
      ∙ ap (λ p. replace_escaped p dollar s) (fun_ext λ c. or_self (is_math_delimiter c))
      ∙ sym (once_math s),
)
