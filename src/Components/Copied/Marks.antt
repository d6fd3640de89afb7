-- ===== src/Components/Copied/Marks.antt =====
-- The mark of the copied join command, in src/frontend/src/components/inputs/join-command.tsx.
use swarm_engine.Prelude.{
  ◌≡◌, refl, sym, ap, subst, ◌∙◌, ◌⊎◌, inl, inr, Bool, true, false, Option, none, some, List, [],
  ◌∷◌, Bool-cases, some_inj,
}
use swarm_engine.Text.{Str, str_eq_iff, truthy}
use swarm_engine.Components.Copied.{
  JoinState, new_join, is_key, command_of, set_copied_key, copy, JoinEvent, copy_key,
  key_timer_ends, end_timer, join_step, join_run,
}

-- What the state says of a key that it marks.
abbrev Says : List (Str × Str) → Option Str → Str → Bool → Type 0
Says commands clipboard k timer =
    (clipboard ≡ command_of k commands) × ((truthy k ≡ false) ⊎ (timer ≡ true))

abbrev IsMarked : List (Str × Str) → JoinState → Type 0
IsMarked commands s = (k : Str) → s.copied_key ≡ some k → Says commands s.clipboard k s.timer

ends : (k : Str) → (truthy k ≡ false) ⊎ (truthy k ≡ true)
ends k = elim (Bool-cases (truthy k)) [ inl e ↦ inr e | inr e ↦ inl e ]

key_of : (o : Option Str) (k : Str) → is_key o k ≡ true → o ≡ some k
key_of none k h = cc
key_of (some j) k h = ap some ((str_eq_iff j k).0 h)

module _ (commands : List (Str × Str)) where
  set-IsMarked :
      (key : Str) (s : JoinState)
      → IsMarked commands s
      → IsMarked commands (set_copied_key key (record s { clipboard = command_of key commands }))
  unfolding set_copied_key
  set-IsMarked key s h = elim (Bool-cases (is_key s.copied_key key)) [
    | inl e ↦ rw e (λ k m. (
      ap (λ j. command_of j commands) (some_inj (sym (key_of s.copied_key key e) ∙ m)),
      (h k m).1,
    ))
    | inr e ↦ rw e (λ k m. (
      ap (λ j. command_of j commands) (some_inj m),
      subst (λ j. (truthy j ≡ false) ⊎ (truthy key ≡ true)) (some_inj m) (ends key),
    ))
  ]

  step-IsMarked :
      (s : JoinState) (e : JoinEvent)
      → IsMarked commands s
      → IsMarked commands (join_step commands s e)
  unfolding join_step copy
  step-IsMarked s (copy_key key true) h = set-IsMarked key s h
  step-IsMarked s (copy_key key false) h = h
  step-IsMarked s key_timer_ends h = elim (Bool-cases s.timer) [
    | inl e ↦ rw e (λ k m. absurd (none_key k m))
    | inr e ↦ subst (IsMarked commands) (sym (idle e)) h
  ]
    where
      none_key : (k : Str) → none ≡ some k → ⊥
      none_key k m = cc

      idle : s.timer ≡ false → end_timer s ≡ s
      idle e = rw e refl

  run-IsMarked :
      (es : List JoinEvent) (s : JoinState)
      → IsMarked commands s
      → IsMarked commands (join_run commands s es)
  unfolding join_run
  run-IsMarked [] s h = h
  run-IsMarked (e ∷ es) s h = run-IsMarked es (join_step commands s e) (step-IsMarked s e h)

  -- While the commands stay the same, whatever is pressed and however the clipboard answers, the command
  -- that is marked as copied is the one in the clipboard, and a timer runs that takes its mark away,
  -- unless its key is empty.
  pub mark_tells_clipboard :
      (es : List JoinEvent) (k : Str)
      → (join_run commands new_join es).copied_key ≡ some k
      → ((join_run commands new_join es).clipboard ≡ command_of k commands)
        × ((truthy k ≡ false) ⊎ ((join_run commands new_join es).timer ≡ true))
  mark_tells_clipboard es k = run-IsMarked es new_join start k
    where
      start : IsMarked commands new_join
      start k m = absurd (clash m)
        where
          clash : none ≡ some k → ⊥
          clash m = cc
