-- ===== src/Hooks.antt =====
-- src/frontend/src/hooks: values and callbacks that are kept over the renders of a component. A reference is
-- `none` before the first render, and a call of a hook is one render.
pub mod Latest
use Prim.Native.Nat.{zero, suc, ◌<◌, ◌≤◌, max, min}
use swarm_engine.Prelude.{
  ℕ, ◌+◌, ◌-◌, ◌*◌, ◌/◌, ◌%◌, String, ◌≡◌, refl, sym, ap, ap₂, subst, ◌∙◌, fun_ext, ◌≢◌, ◌↔◌, ◌⊎◌,
  inl, inr, Bool, true, false, not, ◌&&◌, ◌||◌, Option, none, some, List, [], ◌∷◌, ◌++◌, map,
  append-nil, append_assoc, arith, ltb, leb, ◌==◌, if◌then◌else◌, ==_iff, ==_refl, Bool-cases,
  Option-cases, some_inj, lt→ltb, ge→ltb, ltb→lt, ltb→ge, length, get_elem?, take, drop,
  length-append, take-append-drop, length-drop, take-length-append, drop-append_add, last?, init,
  last?-append, init-append, init-append-last, any, all, filter, find, find_index, length-map,
}

-- `useConst` with what its argument makes, and `useConstCallback`: the result, and the reference after it
unfoldable use_const {ℓ} : {A : Type ℓ} → A → Option A → A × Option A
use_const value none = (value, some value)
use_const value (some kept) = (kept, some kept)

-- A function that a render made: the number of the render, and what a call does with the callback that
-- the reference holds at the time of the call; `none` is `undefined`.
pub record Invoke {ℓ} (A B : Type ℓ) : Type ℓ where
  pub made_in : ℕ
  pub call : Option (A → B) → A → Option B

-- The references of `useRefCallback`: the callback, and the function that is kept.
pub record CallbackRefs {ℓ} (A B : Type ℓ) : Type ℓ where
  pub callback : Option (A → B)
  pub invoke : Option (Invoke A B)

abbrev no_refs {ℓ} : {A B : Type ℓ} → CallbackRefs A B
no_refs = record { callback = none; invoke = none }

-- `ref.current?.(...args)`
unfoldable call_current {ℓ} : {A B : Type ℓ} → Option (A → B) → A → Option B
call_current none a = none
call_current (some callback) a = some (callback a)

-- `useRefCallback` in render `n`: the function that it returns, and the references
unfoldable use_ref_callback {ℓ} :
    {A B : Type ℓ} → ℕ → (A → B) → CallbackRefs A B → Invoke A B × CallbackRefs A B
unfolding use_const call_current
use_ref_callback n callback refs =
    let (invoke, kept) = use_const (record { made_in = n; call = call_current }) refs.invoke in
    (invoke, record { callback = some callback; invoke = kept })

-- A component with the hook: its references, the functions that its renders have returned, and what the
-- calls of them have given, the last first.
pub record HookState {ℓ} (A B : Type ℓ) : Type ℓ where
  pub refs : CallbackRefs A B
  pub returned : List (Invoke A B)
  pub results : List (Option B)

abbrev pub new_hook {ℓ} : {A B : Type ℓ} → HookState A B
new_hook = record { refs = no_refs; returned = []; results = [] }

-- A render with its callback, and a call of the function that a render has returned.
pub data HookEvent {ℓ} (A B : Type ℓ) : Type ℓ where
  render : (A → B) → HookEvent A B
  call_of : ℕ → A → HookEvent A B

-- Nothing is called before its render.
abbrev called {ℓ} : {A B : Type ℓ} → A → HookState A B → Option (Invoke A B) → HookState A B
called a s none = s
called a s (some f) = record s { results = f.call s.refs.callback a ∷ s.results }

unfoldable hook_step {ℓ} : {A B : Type ℓ} → HookState A B → HookEvent A B → HookState A B
unfolding use_ref_callback
hook_step s (render callback) =
    let (invoke, refs) = use_ref_callback (length s.returned) callback s.refs in
    record s { refs = refs; returned = s.returned ++ invoke ∷ [] }
hook_step s (call_of k a) = called a s (get_elem? s.returned k)

unfoldable pub hook_run {ℓ} : {A B : Type ℓ} → HookState A B → List (HookEvent A B) → HookState A B
unfolding hook_step
hook_run s [] = s
hook_run s (e ∷ es) = hook_run (hook_step s e) es
