-- ===== src/Components/DrawerLayout/View.antt =====
-- What src/frontend/src/components/common/drawer-layout.tsx shows: the sidebar, which is expanded or
-- collapsed, and the contents of its dialogs. Texts are written out; `N` is what React renders.
use swarm_engine.Prelude.{
  ℕ, ◌+◌, Bool, true, false, not, Option, none, some, List, [], ◌∷◌, ◌++◌, map, ltb, if◌then◌else◌,
}
use swarm_engine.Text.{Str, codes}
use swarm_engine.Cluster.{ModelInfo}
use swarm_engine.Components.NodeList.{NodeListVariant, menu}
use swarm_engine.Components.DrawerLayout.{
  DrawerDialog, waiting_dialog, rebalancing_dialog, need_more_nodes_dialog, failed_dialog,
}

-- A part of the content of a dialog: a paragraph, one in the color of disabled text, the join commands,
-- or the list of nodes.
pub data DialogPart : Type 0 where
  paragraph remark : Str → DialogPart
  join_command : DialogPart
  nodes : NodeListVariant → DialogPart

pub data TitleIconName : Type 0 where
  info_circle circle_plus : TitleIconName

-- The options of `useAlertDialog`; all have the color `primary`, and `Finish` to confirm.
pub record DialogContent : Type 0 where
  pub title_icon : Option TitleIconName
  pub title : Str
  pub parts : List DialogPart
  pub confirm_label : Str

abbrev finish_label : Str
finish_label = codes "Finish"

-- The second half of the dialogs with the join commands.
abbrev node_status_parts : List DialogPart
node_status_parts =
    paragraph (codes "Check your live node status")
    ∷ remark (
        codes "After you successfully start the server on the nodes, you should see them show up "
        ++ codes "on the below dashboard.")
    ∷ nodes NodeListVariant.list
    ∷ []

abbrev waiting_content : DialogContent
waiting_content = record {
  title_icon = some info_circle;
  title = codes "Reconnect your nodes";
  parts = paragraph (codes "Run join command on your new Node") ∷ join_command ∷ node_status_parts;
  confirm_label = finish_label;
}

abbrev rebalancing_content : DialogContent
rebalancing_content = record {
  title_icon = none;
  title = [];
  parts =
      paragraph (codes "Cluster rebalancing")
      ∷ remark (
          codes "We have noticed one of your nodes has been disconnected. We are now rebalancing "
          ++ (codes "your inference requests onto working nodes. Please wait a few seconds for the "
              ++ codes "cluster to rebalance itself."))
      ∷ nodes menu
      ∷ [];
  confirm_label = finish_label;
}

-- ` You’ll need a minimum of ... to host this model.`, of a model whose memory is known; `text_of`
-- writes a number.
unfoldable vram_text : (ℕ → Str) → Option ModelInfo → Str
vram_text text_of none = []
vram_text text_of (some m) =
    if ltb 0 m.vram
    then codes " You’ll need a minimum of "
      ++ (text_of m.vram ++ codes " GB of total VRAM to host this model.")
    else []

unfoldable need_more_nodes_content : (ℕ → Str) → Option ModelInfo → DialogContent
unfolding vram_text
need_more_nodes_content text_of model = record {
  title_icon = none;
  title = [];
  parts =
      paragraph (codes "Your selected model requires more nodes." ++ vram_text text_of model) ∷ [];
  confirm_label = finish_label;
}

abbrev failed_content : DialogContent
failed_content = record {
  title_icon = none;
  title = [];
  parts =
      paragraph (codes "Scheduler restart")
      ∷ remark (
          codes
            "We have noticed that your scheduler has been disconnected (this would be the computer "
          ++ (codes "that ran the parallax run command). You would need to restart the scheduler, "
              ++ codes "reconfigure the cluster, and your chat will be back up again!"))
      ∷ [];
  confirm_label = finish_label;
}

abbrev join_content : DialogContent
join_content = record {
  title_icon = some circle_plus;
  title = codes "Add New Nodes";
  parts = paragraph (codes "Run join command on all nodes") ∷ join_command ∷ node_status_parts;
  confirm_label = finish_label;
}

-- The dialogs that a status opens, with the model of the configuration.
unfoldable dialog_content : (ℕ → Str) → Option ModelInfo → DrawerDialog → DialogContent
unfolding need_more_nodes_content
dialog_content text_of model waiting_dialog = waiting_content
dialog_content text_of model rebalancing_dialog = rebalancing_content
dialog_content text_of model need_more_nodes_dialog = need_more_nodes_content text_of model
dialog_content text_of model failed_dialog = failed_content

-- `sidebarExpanded`, and how often the dialog of the join commands was opened.
pub record SidebarState : Type 0 where
  pub expanded : Bool
  pub join_opened : ℕ

abbrev pub new_sidebar : SidebarState
new_sidebar = record { expanded = true; join_opened = 0 }

-- What the user can press in the sidebar: the toggle, and the button that adds nodes.
pub data SidebarEvent : Type 0 where
  toggle add_nodes : SidebarEvent

-- What the sidebar shows: its width in hundredths of rem, the tooltip of the toggle, whether the brand
-- gives way to the toggle when the pointer is over it, and, if it is expanded, the list of the nodes with
-- its title and the button below it.
pub record SidebarView : Type 0 where
  pub width : ℕ
  pub tooltip : Str
  pub brand_hides : Bool
  pub topology : Option (Str × NodeListVariant × Str)

unfoldable sidebar_view : SidebarState → SidebarView
sidebar_view s =
    if s.expanded
    then record {
      width = 1625;
      tooltip = codes "Collapse Sidebar";
      brand_hides = false;
      topology = some (codes "Cluster topology", menu, codes "Add Nodes");
    }
    else record {
      width = 350;
      tooltip = codes "Expand Sidebar";
      brand_hides = true;
      topology = none;
    }

-- The button that adds nodes can be pressed only while it is shown.
unfoldable sidebar_step : SidebarState → SidebarEvent → Option SidebarState
unfolding sidebar_view
sidebar_step s toggle = some (record s { expanded = not s.expanded })
sidebar_step s add_nodes = elim (sidebar_view s).topology [
  | none ↦ none
  | some t ↦ some (record s { join_opened = s.join_opened + 1 })
]

unfoldable pub sidebar_run : SidebarState → List SidebarEvent → Option SidebarState
unfolding sidebar_step
sidebar_run s [] = some s
sidebar_run s (e ∷ es) = elim (sidebar_step s e) [ none ↦ none | some t ↦ sidebar_run t es ]

-- The whole layout: the sidebar, the header with the choice of the model, its content, and the dialogs in
-- their order, the one of the join commands first.
pub record LayoutView (N : Type 0) : Type 0 where
  pub sidebar : SidebarView
  pub select_variant : Str
  pub select_commits : Bool
  pub content : N
  pub dialogs : List DialogContent

unfoldable pub layout_view :
    {N : Type 0} → (ℕ → Str) → Option ModelInfo → SidebarState → N → LayoutView N
unfolding sidebar_view dialog_content
layout_view text_of model s children = record {
  sidebar = sidebar_view s;
  select_variant = codes "text";
  select_commits = true;
  content = children;
  dialogs =
      join_content
      ∷ map (dialog_content text_of model)
          (waiting_dialog ∷ rebalancing_dialog ∷ failed_dialog ∷ need_more_nodes_dialog ∷ []);
}
