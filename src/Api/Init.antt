-- ===== src/Api/Init.antt =====
-- When a call of `init` of src/frontend/src/services/cluster.tsx starts the cluster.
use Prim.Native.Nat.{◌≤◌}
use swarm_engine.Prelude.{
  ◌≡◌, refl, sym, ap, ◌∙◌, ◌↔◌, ◌⊎◌, inl, inr, true, false, [], arith, Bool-cases,
}
use swarm_engine.Text.{Str, codes, str_eq, truthy}
use swarm_engine.Json.{Json, undefined, null, bool, num, str, get, is_text, is_nullish}
use swarm_engine.Cluster.{ClusterStatus, ClusterState}
use swarm_engine.Cluster.Setup.{
  InitParams, InitResult, started, threw, scheduler_failed, no_nodes, no_model, InitError, is_local,
  run_init_cases, IsStarted,
}
use swarm_engine.Api.{
  Fetched, rejected, answered, message_data, init_body, accepted, init_scheduler, init_call,
}

-- The scheduler has accepted: its answer is a message of the type that is asked for.
abbrev pub IsAccepted : Fetched → Type 0
IsAccepted o =
    (m : Json) × (o ≡ answered m) × (is_text (get (codes "type") m) (codes "scheduler_init") ≡ true)

message_data-nullish :
    (t : Str) (m : Json) → is_nullish m ≡ true → accepted (message_data t (answered m)) ≡ false
unfolding message_data
message_data-nullish t m h = rw h refl

message_data-other :
    (t : Str) (m : Json)
    → is_text (get (codes "type") m) t ≡ false
    → accepted (message_data t (answered m)) ≡ false
unfolding message_data
message_data-other t m h = elim (Bool-cases (is_nullish m)) [
  | inl n ↦ rw n refl
  | inr n ↦ rw (n, h) refl
]

message_data-type :
    (t : Str) (m : Json)
    → is_text (get (codes "type") m) t ≡ true
    → accepted (message_data t (answered m)) ≡ true
unfolding message_data
message_data-type t m h = elim (Bool-cases (is_nullish m)) [
  | inl n ↦ absurd (clash m n h)
  | inr n ↦ rw (n, h) refl
]
  where
    no : false ≡ true → ⊥
    no e = cc

    clash : (m : Json) → is_nullish m ≡ true → is_text (get (codes "type") m) t ≡ true → ⊥
    clash undefined n h = no h
    clash null n h = no h
    clash _ n h = no n

accepted-IsAccepted : (o : Fetched) → accepted (init_scheduler o) ≡ true → IsAccepted o
unfolding init_scheduler
accepted-IsAccepted rejected h = cc
accepted-IsAccepted (answered m) h =
    elim (Bool-cases (is_text (get (codes "type") m) (codes "scheduler_init"))) [
      | inl t ↦ (m, refl, t)
      | inr t ↦ absurd (clash (sym h ∙ message_data-other (codes "scheduler_init") m t))
    ]
  where
    clash : true ≡ false → ⊥
    clash e = cc

IsAccepted-accepted : (o : Fetched) → IsAccepted o → accepted (init_scheduler o) ≡ true
unfolding init_scheduler
IsAccepted-accepted o (m, e, t) =
    ap (λ x. accepted (init_scheduler x)) e ∙ message_data-type (codes "scheduler_init") m t

-- The cluster was started: the fields of the request's body are what was set, and the cluster waits with
-- it and with no node.
abbrev pub Starts : ClusterState → InitResult → Type 0
Starts s r =
    (p : InitParams) × (u : ClusterState) × (r ≡ started p u)
    × (get (codes "model_name") (init_body p) ≡ str s.model_name)
    × (get (codes "init_nodes_num") (init_body p) ≡ num s.init_nodes_number)
    × (get (codes "is_local_network") (init_body p) ≡ bool (is_local s.network_type))
    × (u.cluster_info.status ≡ ClusterStatus.waiting)
    × (u.cluster_info.model_name ≡ s.model_name)
    × (u.cluster_info.init_nodes_number ≡ s.init_nodes_number)
    × (u.node_info_list ≡ [])

IsStarted-Starts : (s : ClusterState) (r : InitResult) → IsStarted s r → Starts s r
unfolding get str_eq
IsStarted-Starts s r (p, u, e, name, nodes, network, a, b, c, d) =
    (p, u, e, ap str name, ap num nodes, ap bool network, a, b, c, d)

-- Anything else is no start.
not_started : (s : ClusterState) (r : InitResult) (e : InitError) → r ≡ threw e → Starts s r → ⊥
not_started s r e h (p, u, k, _, _, _, _, _, _, _) = cc

not_started_failed : (s : ClusterState) (r : InitResult) → r ≡ scheduler_failed → Starts s r → ⊥
not_started_failed s r h (p, u, k, _, _, _, _, _, _, _) = cc

-- A call of `init` starts the cluster just when there is a node, a model is named, and the scheduler
-- answers with a message of the type that is asked for; then the fields of the request's body are what
-- was set, and the cluster waits with it. A rejected request, `null` and a message of another type do
-- not start it. If it does not start, it throws for the nodes, for the model or for the scheduler.
pub init_call-Starts :
    (o : Fetched) (s : ClusterState)
    → (Starts s (init_call o s)
        ↔ ((1 ≤ s.init_nodes_number) × (truthy s.model_name ≡ true) × IsAccepted o))
      × (Starts s (init_call o s)
          ⊎ (init_call o s ≡ threw no_nodes)
          ⊎ (init_call o s ≡ threw no_model)
          ⊎ (init_call o s ≡ scheduler_failed))
unfolding init_call
init_call-Starts o s = elim (run_init_cases (accepted (init_scheduler o)) s) [
  | inl (few, e) ↦ (
    (
      λ k. absurd (not_started s (init_call o s) no_nodes e k),
      λ (n, _, _). absurd (omega (arith, few, n)),
    ),
    inr (inl e),
  )
  | inr (inl (n, unnamed, e)) ↦ (
    (
      λ k. absurd (not_started s (init_call o s) no_model e k),
      λ (_, named, _). absurd (clash (sym named ∙ unnamed)),
    ),
    inr (inr (inl e)),
  )
  | inr (inr (inl (n, named, refused, e))) ↦ (
    (
      λ k. absurd (not_started_failed s (init_call o s) e k),
      λ (_, _, a). absurd (clash (sym (IsAccepted-accepted o a) ∙ refused)),
    ),
    inr (inr (inr e)),
  )
  | inr (inr (inr (n, named, ok, k))) ↦ (
    (λ _. (n, named, accepted-IsAccepted o ok), λ _. IsStarted-Starts s (init_call o s) k),
    inl (IsStarted-Starts s (init_call o s) k),
  )
]
  where
    clash : true ≡ false → ⊥
    clash e = cc
