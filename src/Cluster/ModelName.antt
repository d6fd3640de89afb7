-- ===== src/Cluster/ModelName.antt =====
-- The effect of `ClusterProvider` in src/frontend/src/services/cluster.tsx that sets the name of the model.
use swarm_engine.Prelude.{
  ◌≡◌, refl, sym, ap, ◌∙◌, ◌⊎◌, inl, inr, Bool, true, false, List, [], ◌∷◌, Bool-cases,
}
use swarm_engine.Text.{Str, truthy, or_else}
use swarm_engine.Cluster.{ModelInfo, ClusterStatus, ClusterState}

abbrev first_model_name : List ModelInfo → Str
first_model_name [] = []
first_model_name (m ∷ ms) = m.name

-- The effect that sets the name of the model, after a change of the list or of the cluster.
unfoldable pub sync_model_name : ClusterState → ClusterState
sync_model_name s = elim s.cluster_info.status [
  | ClusterStatus.waiting ↦ record s {
    model_name =
        or_else s.cluster_info.model_name
          (or_else s.model_name (first_model_name s.model_info_list));
  }
  | ClusterStatus.offline ↦ s
  | _ ↦ record s {
    model_name =
        or_else s.model_name
          (or_else s.cluster_info.model_name (first_model_name s.model_info_list));
  }
]

waiting_again :
    (m c f : Str) → or_else c (or_else (or_else c (or_else m f)) f) ≡ or_else c (or_else m f)
waiting_again m (x ∷ c) f = refl
waiting_again (x ∷ m) [] f = refl
waiting_again [] [] [] = refl
waiting_again [] [] (x ∷ f) = refl

running_again : (m r : Str) → or_else (or_else m r) r ≡ or_else m r
running_again (x ∷ m) r = refl
running_again [] [] = refl
running_again [] (x ∷ r) = refl

-- The new name, by the status of the cluster.
abbrev synced : ClusterStatus → Str → Str → Str → Str
synced ClusterStatus.waiting m c f = or_else c (or_else m f)
synced ClusterStatus.offline m c f = m
synced _ m c f = or_else m (or_else c f)

pub sync_lem :
    (s : ClusterState)
    → sync_model_name s ≡ record s {
      model_name =
          synced s.cluster_info.status s.model_name s.cluster_info.model_name
            (first_model_name s.model_info_list);
    }
unfolding sync_model_name
sync_lem s = go s.cluster_info.status
  where
    go :
        (c : ClusterStatus)
        → (elim c [
          | ClusterStatus.waiting ↦ record s {
            model_name =
                or_else s.cluster_info.model_name
                  (or_else s.model_name (first_model_name s.model_info_list));
          }
          | ClusterStatus.offline ↦ s
          | _ ↦ record s {
            model_name =
                or_else s.model_name
                  (or_else s.cluster_info.model_name (first_model_name s.model_info_list));
          }
        ])
          ≡ record s {
            model_name =
                synced c s.model_name s.cluster_info.model_name
                  (first_model_name s.model_info_list);
          }
    go ClusterStatus.waiting = refl
    go ClusterStatus.offline = refl
    go ClusterStatus.idle = refl
    go ClusterStatus.available = refl
    go ClusterStatus.rebalancing = refl
    go ClusterStatus.failed = refl

synced_again : (c : ClusterStatus) (m n f : Str) → synced c (synced c m n f) n f ≡ synced c m n f
synced_again ClusterStatus.waiting m n f = waiting_again m n f
synced_again ClusterStatus.offline m n f = refl
synced_again ClusterStatus.idle m n f = running_again m (or_else n f)
synced_again ClusterStatus.available m n f = running_again m (or_else n f)
synced_again ClusterStatus.rebalancing m n f = running_again m (or_else n f)
synced_again ClusterStatus.failed m n f = running_again m (or_else n f)

abbrev pub is_waiting : ClusterStatus → Bool
is_waiting ClusterStatus.waiting = true
is_waiting _ = false

synced_kept :
    (c : ClusterStatus) (m n f : Str) → is_waiting c ≡ false → truthy m ≡ true → synced c m n f ≡ m
synced_kept c [] n f w t = cc
synced_kept ClusterStatus.waiting (x ∷ m) n f w t = cc
synced_kept ClusterStatus.offline (x ∷ m) n f w t = refl
synced_kept _ (x ∷ m) n f w t = refl

-- The effect that sets the name of the model is stable: run again, it changes nothing. And it keeps the
-- name, unless the cluster waits or no name is set.
sync_model_name_stable :
    (s : ClusterState)
    → (sync_model_name (sync_model_name s) ≡ sync_model_name s)
      × ((sync_model_name s ≡ s)
          ⊎ (is_waiting s.cluster_info.status ≡ true)
          ⊎ (truthy s.model_name ≡ false))
sync_model_name_stable s = (
  sync_lem (sync_model_name s)
      ∙ ap
          (λ (x : ClusterState). record x {
            model_name =
                synced x.cluster_info.status x.model_name x.cluster_info.model_name
                  (first_model_name x.model_info_list);
          })
          (sync_lem s)
      ∙ ap set_name (
          synced_again s.cluster_info.status s.model_name s.cluster_info.model_name
            (first_model_name s.model_info_list))
      ∙ sym (sync_lem s),
  kept (Bool-cases (is_waiting s.cluster_info.status)) (Bool-cases (truthy s.model_name)),
)
  where
    set_name : Str → ClusterState
    set_name m = record s { model_name = m }

    kept :
        (is_waiting s.cluster_info.status ≡ true) ⊎ (is_waiting s.cluster_info.status ≡ false)
        → (truthy s.model_name ≡ true) ⊎ (truthy s.model_name ≡ false)
        → (sync_model_name s ≡ s)
          ⊎ (is_waiting s.cluster_info.status ≡ true)
          ⊎ (truthy s.model_name ≡ false)
    kept (inl w) t = inr (inl w)
    kept (inr w) (inr t) = inr (inr t)
    kept (inr w) (inl t) = inl (
        sync_lem s
        ∙ ap set_name (
            synced_kept s.cluster_info.status s.model_name s.cluster_info.model_name
              (first_model_name s.model_info_list) w t))
