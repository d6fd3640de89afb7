-- ===== src/Components/NodeList.antt =====
-- src/frontend/src/components/inputs/node-list.tsx: the rows of the list of nodes, and the text of a node.
pub mod Rows
use Prim.Native.Nat.{zero, suc, ◌<◌, ◌≤◌, max, min}
use swarm_engine.Prelude.{
  ℕ, ◌+◌, ◌-◌, ◌*◌, ◌/◌, ◌%◌, String, ◌≡◌, refl, sym, ap, ap₂, subst, ◌∙◌, fun_ext, ◌≢◌, ◌↔◌, ◌⊎◌,
  inl, inr, Bool, true, false, not, ◌&&◌, ◌||◌, Option, none, some, List, [], ◌∷◌, ◌++◌, map,
  append-nil, append_assoc, arith, ltb, leb, ◌==◌, if◌then◌else◌, ==_iff, ==_refl, Bool-cases,
  Option-cases, some_inj, lt→ltb, ge→ltb, ltb→lt, ltb→ge, length, get_elem?, take, drop,
  length-append, take-append-drop, length-drop, take-length-append, drop-append_add, last?, init,
  last?-append, init-append, init-append-last, any, all, filter, find, find_index, length-map,
}
use swarm_engine.Text.{Str, codes, truthy, join}
use swarm_engine.Cluster.{ClusterStatus, NodeStatus, NodeInfo}

pub data NodeListVariant : Type 0 where
  list menu : NodeListVariant

pub data StatusColor : Type 0 where
  info success error grey : StatusColor

-- `STATUS_COLOR_MAP`
abbrev status_color : NodeStatus → StatusColor
status_color NodeStatus.waiting = info
status_color NodeStatus.available = success
status_color NodeStatus.failed = error

pub data StatusIcon : Type 0 where
  loader check x_mark : StatusIcon

-- `STATUS_ICON_MAP`
abbrev status_icon : NodeStatus → StatusIcon
status_icon NodeStatus.waiting = loader
status_icon NodeStatus.available = check
status_icon NodeStatus.failed = x_mark

abbrev non_empty : List Str → List Str
non_empty ts = filter truthy ts

-- The text of a node: how many of which chip, and how much memory. `show` writes a number.
unfoldable node_label : (ℕ → Str) → NodeInfo → Str
unfolding join
node_label show n = join (codes " ") (
    non_empty (
      (if ltb 1 n.gpu_number then show n.gpu_number ++ codes "x" else [])
      ∷ n.gpu_name
      ∷ (if ltb 0 n.gpu_memory then show n.gpu_memory ++ codes "GB" else [])
      ∷ []))

abbrev shown_color : NodeStatus → StatusColor
shown_color NodeStatus.waiting = grey
shown_color NodeStatus.available = status_color NodeStatus.available
shown_color NodeStatus.failed = status_color NodeStatus.failed

-- What a row shows of its node: its text, and the color and the icon of its status, or no node yet. In the
-- menu the icon is a circle. A node that has failed is dimmed, and one that waits turns.
pub record NodeView : Type 0 where
  pub label : Option Str
  pub color : StatusColor
  pub icon : Option StatusIcon
  pub dimmed : Bool
  pub spins : Bool

abbrev icon_in : NodeListVariant → StatusIcon → Option StatusIcon
icon_in list i = some i
icon_in menu i = none

abbrev has_failed : NodeStatus → Bool
has_failed NodeStatus.failed = true
has_failed _ = false

abbrev still_waits : NodeStatus → Bool
still_waits NodeStatus.waiting = true
still_waits _ = false

-- `Node`, with its node and with none
unfoldable node_view : (ℕ → Str) → NodeListVariant → Option NodeInfo → NodeView
unfolding node_label
node_view show v none = record {
  label = none;
  color = grey;
  icon = none;
  dimmed = false;
  spins = false;
}
node_view show v (some n) = record {
  label = some (node_label show n);
  color = shown_color n.status;
  icon = icon_in v (status_icon n.status);
  dimmed = has_failed n.status;
  spins = still_waits n.status;
}

-- What the list shows: dashes, nodes, and places for the nodes that are to come.
pub data Row : Type 0 where
  dash : Bool → Row
  node_row : NodeInfo → Row
  placeholder : Row

-- `dashIndex > 0 && <Dash/>`
abbrev dash_if : Bool → ℕ → List Row
dash_if generating zero = []
dash_if generating (suc i) = dash generating ∷ []

-- `renderDash`, with the counter: the first call shows none.
unfoldable render_dash : NodeListVariant → Bool → ℕ → List Row × ℕ
render_dash list generating i = ([], i)
render_dash menu generating i = (dash_if generating i, suc i)

-- The rows in turn, each behind its dash.
unfoldable render_rows : NodeListVariant → Bool → List Row → ℕ → List Row
unfolding render_dash
render_rows v generating [] i = []
render_rows v generating (r ∷ rs) i =
    let (d, j) = render_dash v generating i in d ++ r ∷ render_rows v generating rs j

unfoldable pub placeholders : ℕ → List Row
placeholders zero = []
placeholders (suc n) = placeholder ∷ placeholders n

abbrev cluster_idle : ClusterStatus → Bool
cluster_idle ClusterStatus.idle = true
cluster_idle _ = false

-- How many nodes are to come.
unfoldable missing_nodes : ClusterStatus → ℕ → ℕ → ℕ
missing_nodes c expected present =
    if not (cluster_idle c) && ltb present expected then expected - present else 0

-- `NodeList`
unfoldable pub node_list : NodeListVariant → Bool → ClusterStatus → ℕ → List NodeInfo → List Row
unfolding render_rows placeholders missing_nodes
node_list v generating c expected nodes =
    render_rows v generating
      (map node_row nodes ++ placeholders (missing_nodes c expected (length nodes))) 0
