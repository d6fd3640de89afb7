-- ===== src/Cluster/Nodes.antt =====
-- The node list that is shown after a status message, in src/frontend/src/services/cluster.tsx.
use swarm_engine.Prelude.{
  ◌≡◌, refl, sym, ap, ap₂, subst, ◌∙◌, ◌⊎◌, inl, inr, Bool, true, false, not, ◌||◌, List, [], ◌∷◌,
  ◌++◌, map, append-nil, append_assoc, arith, ==_refl, Bool-cases, any, filter,
}
use swarm_engine.Text.{str_eq, str_eq_refl, str_eq_iff}
use swarm_engine.Cluster.{NodeInfo, NodeStatus}
use swarm_engine.Cluster.Update.{
  status_eq, node_eq, nodes_eq, has_id, mark_failed, prev_online, prev_offline, with_offline,
  merge_nodes,
}

status_eq_refl : (s : NodeStatus) → status_eq s s ≡ true
unfolding status_eq
status_eq_refl NodeStatus.waiting = refl
status_eq_refl NodeStatus.available = refl
status_eq_refl NodeStatus.failed = refl

eq_of_status_eq : (s t : NodeStatus) → status_eq s t ≡ true → s ≡ t
unfolding status_eq
eq_of_status_eq NodeStatus.waiting NodeStatus.waiting h = refl
eq_of_status_eq NodeStatus.available NodeStatus.available h = refl
eq_of_status_eq NodeStatus.failed NodeStatus.failed h = refl
eq_of_status_eq _ _ h = cc

node_eq_refl : (n : NodeInfo) → node_eq n n ≡ true
unfolding node_eq
node_eq_refl n =
    rw
      (
        str_eq_refl n.id,
        status_eq_refl n.status,
        ==_refl n.gpu_number,
        str_eq_refl n.gpu_name,
        ==_refl n.gpu_memory,
      )
      refl

eq_of_node_eq : (a b : NodeInfo) → node_eq a b ≡ true → a ≡ b
unfolding node_eq
eq_of_node_eq a b h = ground (
  arith,
  str_eq_iff a.id b.id,
  str_eq_iff a.gpu_name b.gpu_name,
  eq_of_status_eq a.status b.status,
)

nodes_eq_refl : (ns : List NodeInfo) → nodes_eq ns ns ≡ true
unfolding nodes_eq
nodes_eq_refl [] = refl
nodes_eq_refl (n ∷ ns) = rw (node_eq_refl n) (nodes_eq_refl ns)

eq_of_nodes_eq : (xs ys : List NodeInfo) → nodes_eq xs ys ≡ true → xs ≡ ys
unfolding nodes_eq
eq_of_nodes_eq [] [] h = refl
eq_of_nodes_eq (a ∷ xs) (b ∷ ys) h = ground (arith, eq_of_node_eq a b, eq_of_nodes_eq xs ys)
eq_of_nodes_eq _ _ h = cc

-- Keeping the old list when nothing changes is no other value.
merge_nodes-eq : (prev next : List NodeInfo) → merge_nodes prev next ≡ with_offline prev next
unfolding merge_nodes
merge_nodes-eq prev next = elim (Bool-cases (nodes_eq (with_offline prev next) prev)) [
  | inl e ↦ rw e (sym (eq_of_nodes_eq (with_offline prev next) prev e))
  | inr e ↦ rw e refl
]

filter-append :
    (p : NodeInfo → Bool) (xs ys : List NodeInfo) → filter p (xs ++ ys) ≡ filter p xs ++ filter p ys
filter-append p [] ys = refl
filter-append p (x ∷ xs) ys = elim (Bool-cases (p x)) [
  | inl e ↦ rw e (ap (x ∷◌) (filter-append p xs ys))
  | inr e ↦ rw e (filter-append p xs ys)
]

any-append :
    (p : NodeInfo → Bool) (xs ys : List NodeInfo) → any p (xs ++ ys) ≡ (any p xs || any p ys)
any-append p [] ys = refl
any-append p (x ∷ xs) ys = ground (arith, any-append p xs ys)

any-right :
    (p : NodeInfo → Bool) (xs ys : List NodeInfo) → any p ys ≡ true → any p (xs ++ ys) ≡ true
any-right p xs ys h = ground (arith, any-append p xs ys)

-- A node of a list has its id in the list.
has_id_self : (xs ys : List NodeInfo) (n : NodeInfo) → has_id (xs ++ n ∷ ys) n ≡ true
unfolding has_id
has_id_self xs ys n = any-right (λ x. str_eq x.id n.id) xs (n ∷ ys) (rw (str_eq_refl n.id) refl)

all_online : (xs ys : List NodeInfo) → filter (λ n. has_id (xs ++ ys) n) ys ≡ ys
all_online xs [] = refl
all_online xs (n ∷ ys) = rw (has_id_self xs ys n) (
    ap (n ∷◌) (
      subst (λ zs. filter (λ k. has_id zs k) ys ≡ ys) (append_assoc xs (n ∷ []) ys)
        (all_online (xs ++ n ∷ []) ys)))

none_offline : (xs ys : List NodeInfo) → filter (λ n. not (has_id (xs ++ ys) n)) ys ≡ []
none_offline xs [] = refl
none_offline xs (n ∷ ys) = rw (has_id_self xs ys n) (
    subst (λ zs. filter (λ k. not (has_id zs k)) ys ≡ []) (append_assoc xs (n ∷ []) ys)
      (none_offline (xs ++ n ∷ []) ys))

has_id-mark_failed :
    (next : List NodeInfo) (n : NodeInfo) → has_id next (mark_failed n) ≡ has_id next n
unfolding has_id
has_id-mark_failed next n = refl

-- The nodes that are shown on as failed: none has an id that the server lists.
offline_gone :
    (next prev : List NodeInfo) → filter (λ n. has_id next n) (prev_offline prev next) ≡ []
unfolding prev_offline
offline_gone next [] = refl
offline_gone next (n ∷ prev) = elim (Bool-cases (has_id next n)) [
  | inl e ↦ rw e (offline_gone next prev)
  | inr e ↦ rw e (rw (has_id-mark_failed next n, e) (offline_gone next prev))
]

offline_stays :
    (next prev : List NodeInfo)
    → filter (λ n. not (has_id next n)) (prev_offline prev next) ≡ prev_offline prev next
unfolding prev_offline
offline_stays next [] = refl
offline_stays next (n ∷ prev) = elim (Bool-cases (has_id next n)) [
  | inl e ↦ rw e (offline_stays next prev)
  | inr e ↦
      rw e (rw (has_id-mark_failed next n, e) (ap (mark_failed n ∷◌) (offline_stays next prev)))
]

failed_again :
    (next prev : List NodeInfo) → map mark_failed (prev_offline prev next) ≡ prev_offline prev next
unfolding prev_offline
failed_again next prev = go (filter (λ n. not (has_id next n)) prev)
  where
    go : (ns : List NodeInfo) → map mark_failed (map mark_failed ns) ≡ map mark_failed ns
    go [] = refl
    go (n ∷ ns) = ap (mark_failed n ∷◌) (go ns)

prev_online-with :
    (next prev : List NodeInfo) → prev_online (next ++ prev_offline prev next) next ≡ next
unfolding prev_online
prev_online-with next prev =
    filter-append (λ n. has_id next n) next (prev_offline prev next)
    ∙ ap₂ (λ (x y : List NodeInfo). x ++ y) (all_online [] next) (offline_gone next prev)
    ∙ append-nil next

-- Only the name is unfolded, so that the inner list of failed nodes stays shut.
prev_offline_lem :
    (prev next : List NodeInfo)
    → prev_offline prev next ≡ map mark_failed (filter (λ n. not (has_id next n)) prev)
unfolding prev_offline
prev_offline_lem prev next = refl

prev_offline-with :
    (next prev : List NodeInfo)
    → prev_offline (next ++ prev_offline prev next) next ≡ prev_offline prev next
prev_offline-with next prev =
    prev_offline_lem (next ++ prev_offline prev next) next
    ∙ ap (map mark_failed) (
        filter-append (λ n. not (has_id next n)) next (prev_offline prev next)
        ∙ ap₂ (λ (x y : List NodeInfo). x ++ y) (none_offline [] next) (offline_stays next prev))
    ∙ failed_again next prev

with_offline-eq :
    (prev next : List NodeInfo)
    → nodes_eq next (prev_online prev next) ≡ true
    → with_offline prev next ≡ next ++ prev_offline prev next
unfolding with_offline
with_offline-eq prev next h = rw h refl

with_offline-ne :
    (prev next : List NodeInfo)
    → nodes_eq next (prev_online prev next) ≡ false
    → with_offline prev next ≡ next
unfolding with_offline
with_offline-ne prev next h = rw h refl

self_online : (next : List NodeInfo) → prev_online next next ≡ next
unfolding prev_online
self_online next = all_online [] next

self_offline : (next : List NodeInfo) → prev_offline next next ≡ []
self_offline next = prev_offline_lem next next ∙ ap (map mark_failed) (none_offline [] next)

again_with :
    (prev next : List NodeInfo)
    → with_offline (next ++ prev_offline prev next) next ≡ next ++ prev_offline prev next
again_with prev next =
    with_offline-eq (next ++ prev_offline prev next) next
      (rw (prev_online-with next prev) (nodes_eq_refl next))
    ∙ ap (next ++◌) (prev_offline-with next prev)

again_alone : (next : List NodeInfo) → with_offline next next ≡ next
again_alone next =
    with_offline-eq next next (rw (self_online next) (nodes_eq_refl next))
    ∙ ap (next ++◌) (self_offline next)
    ∙ append-nil next

-- A node list that the server sends a second time changes nothing: what is shown is stable until the
-- server's list changes.
pub merge_nodes_idem :
    (prev next : List NodeInfo) → merge_nodes (merge_nodes prev next) next ≡ merge_nodes prev next
merge_nodes_idem prev next = elim (Bool-cases (nodes_eq next (prev_online prev next))) [
  | inl e ↦
      let m : merge_nodes prev next ≡ next ++ prev_offline prev next =
        merge_nodes-eq prev next ∙ with_offline-eq prev next e in
      rw m (merge_nodes-eq (next ++ prev_offline prev next) next ∙ again_with prev next)
  | inr e ↦
      let m : merge_nodes prev next ≡ next =
        merge_nodes-eq prev next ∙ with_offline-ne prev next e in
      rw m (merge_nodes-eq next next ∙ again_alone next)
]

-- Nodes that are shown on: each has failed, and the server does not list its id.
abbrev pub AllGone : List NodeInfo → List NodeInfo → Type 0
AllGone next [] = Unit
AllGone next (n ∷ ns) = ((n.status ≡ NodeStatus.failed) × (has_id next n ≡ false)) × AllGone next ns

prev_offline-AllGone : (prev next : List NodeInfo) → AllGone next (prev_offline prev next)
unfolding prev_offline
prev_offline-AllGone [] next = tt
prev_offline-AllGone (n ∷ prev) next = elim (Bool-cases (has_id next n)) [
  | inl e ↦ rw e (prev_offline-AllGone prev next)
  | inr e ↦ rw e ((refl, has_id-mark_failed next n ∙ e), prev_offline-AllGone prev next)
]

-- The list that is shown begins with the server's nodes, as the server sent them. Behind them stand
-- only nodes that have failed and that the server does not list; if any does, the nodes that stayed
-- have not changed since the last list.
pub merge_nodes_shows :
    (prev next : List NodeInfo)
    → (gone : List NodeInfo) × (merge_nodes prev next ≡ next ++ gone)
      × AllGone next gone
      × ((gone ≡ []) ⊎ (next ≡ prev_online prev next))
merge_nodes_shows prev next = elim (Bool-cases (nodes_eq next (prev_online prev next))) [
  | inl e ↦ (
    prev_offline prev next,
    merge_nodes-eq prev next ∙ with_offline-eq prev next e,
    prev_offline-AllGone prev next,
    inr (eq_of_nodes_eq next (prev_online prev next) e),
  )
  | inr e ↦ (
    [],
    merge_nodes-eq prev next ∙ with_offline-ne prev next e ∙ sym (append-nil next),
    tt,
    inl refl,
  )
]
