-- ===== src/Pages/Setup.antt =====
-- src/frontend/src/pages/setup.tsx: the button that starts the cluster and goes on, and the warning.
use swarm_engine.Prelude.{
  ℕ, ◌≡◌, refl, ap, ◌∙◌, ◌⊎◌, inl, inr, Bool, true, false, not, ◌||◌, Option, none, some, ltb, ◌==◌,
  if◌then◌else◌, ==_refl, Bool-cases,
}
use swarm_engine.Text.{str_eq, str_eq_refl}
use swarm_engine.Cluster.{ModelInfo, ClusterStatus, ClusterState, NetworkType, find_model}
use swarm_engine.Cluster.Setup.{
  InitResult, threw, scheduler_failed, started, init_params, init_done, finish_init, run_init,
  end_init, refused, params, Checked,
}

abbrev idle_or_failed : ClusterStatus → Bool
idle_or_failed ClusterStatus.idle = true
idle_or_failed ClusterStatus.failed = true
idle_or_failed _ = false

-- `shouldInit`
unfoldable pub should_init : ClusterState → Bool
unfolding str_eq
should_init s =
    idle_or_failed s.cluster_info.status
    || (not (s.cluster_info.init_nodes_number == s.init_nodes_number)
        || not (str_eq s.cluster_info.model_name s.model_name))

-- Where `onContinue` ends: the state, and whether it navigates to `/join`.
pub record Continued : Type 0 where
  pub state : ClusterState
  pub navigated : Bool

-- An error of `init` is only logged.
abbrev after_init : ClusterState → InitResult → Continued
after_init s (threw e) = record { state = s; navigated = false }
after_init s scheduler_failed = record { state = s; navigated = false }
after_init s (started p u) = record { state = u; navigated = true }

-- `onContinue`; `accepted` says whether the scheduler accepts.
unfoldable pub on_continue : Bool → ClusterState → Continued
unfolding should_init run_init
on_continue accepted s =
    if should_init s
    then after_init s (run_init accepted s)
    else record { state = s; navigated = true }

abbrev pub positive_vram : Option ModelInfo → Option ℕ
positive_vram none = none
positive_vram (some m) = if ltb 0 m.vram then some m.vram else none

-- The warning on the memory that the selected model needs.
unfoldable vram_warning : ClusterState → Option ℕ
unfolding find_model
vram_warning s = positive_vram (find_model (some s.model_name) s.model_info_list)

-- `onValueChange` of the toggle: the network type, if one is selected.
unfoldable on_network_change : Option NetworkType → ClusterState → ClusterState
on_network_change none s = s
on_network_change (some t) s = record s { network_type = t }

-- A cluster that was just started need not be started again.
init_done-fresh : (s : ClusterState) → should_init (init_done s s) ≡ false
unfolding should_init init_done
init_done-fresh s = rw (==_refl s.init_nodes_number, str_eq_refl s.model_name) refl

-- `onContinue` either stays, with the state as it was, or goes to `/join` with a state in which it would
-- not start the cluster: pressed again, it sends the scheduler nothing.
pub continue_settles :
    (accepted : Bool) (s : ClusterState)
    → (((on_continue accepted s).navigated ≡ false)
        × ((on_continue accepted s).state ≡ s)
        × (should_init s ≡ true))
      ⊎ (((on_continue accepted s).navigated ≡ true)
          × (should_init (on_continue accepted s).state ≡ false))
continue_settles accepted s = elim (Bool-cases (should_init s)) [
  | inr h ↦ inr (
    ap (λ (r : Continued). r.navigated) (passed h),
    ap (λ (r : Continued). should_init r.state) (passed h) ∙ h,
  )
  | inl h ↦ elim (checked accepted (init_params s)) [
    | inl e ↦ inl (
      ap (λ (r : Continued). r.navigated) (asked h ∙ e),
      ap (λ (r : Continued). r.state) (asked h ∙ e),
      h,
    )
    | inr e ↦ inr (
      ap (λ (r : Continued). r.navigated) (asked h ∙ e),
      ap (λ (r : Continued). should_init r.state) (asked h ∙ e) ∙ init_done-fresh s,
    )
  ]
]
  where
    passed : should_init s ≡ false → on_continue accepted s ≡ record { state = s; navigated = true }
    passed h = unfold on_continue in rw h refl

    asked :
        should_init s ≡ true
        → on_continue accepted s ≡ after_init s (finish_init accepted s s (init_params s))
    asked h = unfold on_continue run_init end_init in rw h refl

    checked :
        (a : Bool) (c : Checked)
        → (after_init s (finish_init a s s c) ≡ record { state = s; navigated = false })
          ⊎ (after_init s (finish_init a s s c)
              ≡ record { state = init_done s s; navigated = true })
    checked a (refused e) = inl refl
    checked false (params p) = inl refl
    checked true (params p) = inr refl
