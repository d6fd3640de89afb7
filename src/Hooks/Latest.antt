-- ===== src/Hooks/Latest.antt =====
-- Which callback a function of `useRefCallback` calls, in src/frontend/src/hooks/use-callback.ts.
use Prim.Native.Nat.{zero, suc, ◌<◌, ◌≤◌}
use swarm_engine.Prelude.{
  ℕ, ◌+◌, ◌≡◌, refl, sym, ap, subst, ◌∙◌, inl, inr, Option, none, some, List, [], ◌∷◌, ◌++◌, arith,
  ltb, if◌then◌else◌, Bool-cases, ltb→lt, ltb→ge, get_elem?,
}
use swarm_engine.Hooks.{
  Invoke, call_current, use_const, use_ref_callback, HookState, new_hook, HookEvent, render,
  call_of, called, hook_step, hook_run,
}

-- What the calls are to give: each goes straight to the callback of the last render, and there is none
-- of a function that was not returned yet. `n` is the number of renders so far.
abbrev pub direct {ℓ} :
    {A B : Type ℓ} → Option (A → B) → ℕ → List (Option B) → List (HookEvent A B) → List (Option B)
direct latest n rs [] = rs
direct latest n rs (render callback ∷ es) = direct (some callback) (suc n) rs es
direct none n rs (call_of k a ∷ es) = direct none n rs es
direct (some f) n rs (call_of k a ∷ es) =
    direct (some f) n (if ltb k n then some (f a) ∷ rs else rs) es

abbrev pub renders_in {ℓ} : {A B : Type ℓ} → List (HookEvent A B) → ℕ
renders_in [] = 0
renders_in (render callback ∷ es) = 1 + renders_in es
renders_in (call_of k a ∷ es) = renders_in es

abbrev pub copies {ℓ} : {A : Type ℓ} → ℕ → A → List A
copies zero x = []
copies (suc n) x = x ∷ copies n x

copies-last {ℓ} : {A : Type ℓ} (n : ℕ) (x : A) → copies n x ++ x ∷ [] ≡ copies (suc n) x
copies-last zero x = refl
copies-last (suc n) x = ap (x ∷◌) (copies-last n x)

inside {ℓ} : {A : Type ℓ} (n k : ℕ) (x : A) → k < n → get_elem? (copies n x) k ≡ some x
inside zero k x h = absurd (omega (arith, h))
inside (suc n) zero x h = refl
inside (suc n) (suc k) x h = inside n k x (omega (arith, h))

outside {ℓ} : {A : Type ℓ} (n k : ℕ) (x : A) → n ≤ k → get_elem? (copies n x) k ≡ none
outside zero k x h = refl
outside (suc n) zero x h = absurd (omega (arith, h))
outside (suc n) (suc k) x h = outside n k x (omega (arith, h))

module _ {ℓ} {A B : Type ℓ} where
  -- The function of the first render, and a state after `n` renders, the last one with a callback.
  abbrev pub first_invoke : Invoke A B
  first_invoke = record { made_in = 0; call = call_current }

  abbrev steady : (A → B) → ℕ → List (Option B) → HookState A B
  steady latest n rs = record {
    refs = record { callback = some latest; invoke = some first_invoke };
    returned = copies n first_invoke;
    results = rs;
  }

  -- Every call gave what a direct call of the latest callback gives, and all renders have returned the
  -- function of the first.
  abbrev IsDirect : ℕ → List (Option B) → HookState A B → Type ℓ
  IsDirect n rs s = (s.results ≡ rs) × (s.returned ≡ copies n first_invoke)

  rendered :
      (latest callback : A → B) (n : ℕ) (rs : List (Option B))
      → hook_step (steady latest n rs) (render callback) ≡ steady callback (suc n) rs
  unfolding hook_step use_ref_callback use_const
  rendered latest callback n rs =
      ap (λ fs. record (steady callback n rs) { returned = fs }) (copies-last n first_invoke)

  answered :
      (latest : A → B) (n k : ℕ) (a : A) (rs : List (Option B))
      → hook_step (steady latest n rs) (call_of k a)
        ≡ steady latest n (if ltb k n then some (latest a) ∷ rs else rs)
  unfolding hook_step call_current
  answered latest n k a rs = elim (Bool-cases (ltb k n)) [
    | inl h ↦
        ap (called a (steady latest n rs)) (inside n k first_invoke (ltb→lt k n h))
        ∙ ap (λ b. steady latest n (if b then some (latest a) ∷ rs else rs)) (sym h)
    | inr h ↦
        ap (called a (steady latest n rs)) (outside n k first_invoke (ltb→ge k n h))
        ∙ ap (λ b. steady latest n (if b then some (latest a) ∷ rs else rs)) (sym h)
  ]

  steady-IsDirect :
      (latest : A → B) (n : ℕ) (rs : List (Option B)) (es : List (HookEvent A B))
      → IsDirect
          (n + renders_in es)
          (direct (some latest) n rs es)
          (hook_run (steady latest n rs) es)
  unfolding hook_run
  steady-IsDirect latest n rs [] =
      (refl, ap (λ m. copies m first_invoke) {x = n} {y = n + 0} (omega arith))
  steady-IsDirect latest n rs (render callback ∷ es) =
      subst
        (λ m.
          IsDirect m (direct (some callback) (suc n) rs es)
            (hook_run (hook_step (steady latest n rs) (render callback)) es))
        {x = suc n + renders_in es} {y = n + (1 + renders_in es)} (omega arith)
        (subst
          (λ s.
            IsDirect (suc n + renders_in es) (direct (some callback) (suc n) rs es) (hook_run s es))
          (sym (rendered latest callback n rs)) (steady-IsDirect callback (suc n) rs es))
  steady-IsDirect latest n rs (call_of k a ∷ es) =
      let next = if ltb k n then some (latest a) ∷ rs else rs in
      subst (λ s. IsDirect (n + renders_in es) (direct (some latest) n next es) (hook_run s es))
        (sym (answered latest n k a rs)) (steady-IsDirect latest n next es)

  -- Whatever renders and calls follow each other, in any order: a call of a function that any render
  -- has returned gives what the callback of the last render gives for its argument, and all renders
  -- return the one function that the first has made.
  pub ref_callback_latest :
      (es : List (HookEvent A B))
      → ((hook_run new_hook es).results ≡ direct none 0 [] es)
        × ((hook_run new_hook es).returned ≡ copies (renders_in es) first_invoke)
  unfolding hook_run hook_step use_ref_callback use_const
  ref_callback_latest [] = (refl, refl)
  ref_callback_latest (render callback ∷ es) = steady-IsDirect callback 1 [] es
  ref_callback_latest (call_of k a ∷ es) = ref_callback_latest es
