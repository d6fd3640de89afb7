-- ===== src/Components/NodeList/Rows.antt =====
-- How many rows and dashes the list of nodes has.
use Prim.Native.Nat.{zero, suc, max}
use swarm_engine.Prelude.{
  ℕ, ◌+◌, ◌-◌, ◌≡◌, refl, ap, ap₂, ◌∙◌, inl, inr, Bool, true, false, not, List, [], ◌∷◌, ◌++◌, map,
  arith, if◌then◌else◌, Bool-cases, length, length-append, filter, length-map,
}
use swarm_engine.Cluster.{ClusterStatus, NodeInfo}
use swarm_engine.Components.NodeList.{
  NodeListVariant, list, menu, Row, dash, node_row, render_rows, placeholders, cluster_idle,
  missing_nodes, node_list,
}

abbrev is_dash : Row → Bool
is_dash (dash g) = true
is_dash _ = false

-- The rows that are no dash.
abbrev pub entries : List Row → List Row
entries rs = filter (λ r. not (is_dash r)) rs

abbrev pub dashes : List Row → ℕ
dashes rs = length (filter is_dash rs)

-- How many dashes stand among `n` rows.
abbrev pub expected_dashes : NodeListVariant → ℕ → ℕ
expected_dashes list n = 0
expected_dashes menu n = n - 1

abbrev IsEntries : List Row → Type 0
IsEntries [] = Unit
IsEntries (r ∷ rs) = (is_dash r ≡ false) × IsEntries rs

list-rows :
    (g : Bool) (rs : List Row) (i : ℕ)
    → IsEntries rs
    → (entries (render_rows list g rs i) ≡ rs) × (dashes (render_rows list g rs i) ≡ 0)
unfolding render_rows
list-rows g [] i h = (refl, refl)
list-rows g (r ∷ rs) i h = let (e, d) = list-rows g rs i h.1 in (rw h.0 (ap (r ∷◌) e), rw h.0 d)

menu-rows :
    (g : Bool) (rs : List Row) (i : ℕ)
    → IsEntries rs
    → (entries (render_rows menu g rs (suc i)) ≡ rs)
      × (dashes (render_rows menu g rs (suc i)) ≡ length rs)
unfolding render_rows
menu-rows g [] i h = (refl, refl)
menu-rows g (r ∷ rs) i h =
    let (e, d) = menu-rows g rs (suc i) h.1 in (rw h.0 (ap (r ∷◌) e), rw h.0 (ap suc d))

first-rows :
    (v : NodeListVariant) (g : Bool) (rs : List Row)
    → IsEntries rs
    → (entries (render_rows v g rs 0) ≡ rs)
      × (dashes (render_rows v g rs 0) ≡ expected_dashes v (length rs))
unfolding render_rows
first-rows list g rs h = list-rows g rs 0 h
first-rows menu g [] h = (refl, refl)
first-rows menu g (r ∷ rs) h =
    let (e, d) = menu-rows g rs 0 h.1 in (rw h.0 (ap (r ∷◌) e), rw h.0 (d ∙ omega arith))

placeholders-IsEntries : (n : ℕ) → IsEntries (placeholders n)
unfolding placeholders
placeholders-IsEntries zero = tt
placeholders-IsEntries (suc n) = (refl, placeholders-IsEntries n)

rows-IsEntries : (nodes : List NodeInfo) (n : ℕ) → IsEntries (map node_row nodes ++ placeholders n)
rows-IsEntries [] n = placeholders-IsEntries n
rows-IsEntries (x ∷ nodes) n = (refl, rows-IsEntries nodes n)

length-placeholders : (n : ℕ) → length (placeholders n) ≡ n
unfolding placeholders
length-placeholders zero = refl
length-placeholders (suc n) = ap suc (length-placeholders n)

-- The number of rows that are to be shown: no fewer than the nodes that are there, nor, unless the
-- cluster is idle, than the nodes that it expects.
abbrev pub shown_rows : ClusterStatus → ℕ → ℕ → ℕ
shown_rows c expected present = if cluster_idle c then present else max present expected

count_lem : (c : ClusterStatus) (e p : ℕ) → p + missing_nodes c e p ≡ shown_rows c e p
unfolding missing_nodes
count_lem c e p = elim (Bool-cases (cluster_idle c)) [
  | inl h ↦ rw h (omega arith)
  | inr h ↦ rw h (ground arith)
]

-- The list shows the nodes that are there, in their order, and behind them a place for each node that
-- is to come; an idle cluster shows no places. In the menu there is one dash fewer than there are such
-- rows, and in the list there is none.
pub node_list_rows :
    (v : NodeListVariant) (g : Bool) (c : ClusterStatus) (expected : ℕ) (nodes : List NodeInfo)
    → (missing : ℕ) × (entries (node_list v g c expected nodes)
        ≡ map node_row nodes ++ placeholders missing)
      × (length nodes + missing ≡ shown_rows c expected (length nodes))
      × (dashes (node_list v g c expected nodes)
          ≡ expected_dashes v (shown_rows c expected (length nodes)))
unfolding node_list
node_list_rows v g c expected nodes =
    let m = missing_nodes c expected (length nodes) in
    let (e, d) = first-rows v g (map node_row nodes ++ placeholders m) (rows-IsEntries nodes m) in
    (m, e, count_lem c expected (length nodes), d ∙ ap (expected_dashes v) (counted m))
  where
    counted :
        (m : ℕ)
        → length (map node_row nodes ++ placeholders (missing_nodes c expected (length nodes)))
          ≡ shown_rows c expected (length nodes)
    counted m =
        length-append (map node_row nodes) (placeholders (missing_nodes c expected (length nodes)))
        ∙ ap₂ ◌+◌ (length-map node_row nodes)
            (length-placeholders (missing_nodes c expected (length nodes)))
        ∙ count_lem c expected (length nodes)
