-- ===== src/Examples/Components.antt =====
-- The hooks, the router, the components and the pages at concrete states and events.
use Prim.Native.Nat.{◌≤◌}
use swarm_engine.Prelude.{
  ℕ, ◌+◌, ◌≡◌, refl, ◌≢◌, ◌⊎◌, true, false, none, some, List, [], ◌∷◌, ◌++◌, map, arith,
  if◌then◌else◌, length,
}
use swarm_engine.Text.{codes, is_space}
use swarm_engine.Cluster.{ClusterStatus, NodeStatus, NodeInfo, ClusterState, initial_state, cluster}
use swarm_engine.Chat.{ClusterView}
use swarm_engine.Chat.Provider.{ChatState, new_chat}
use swarm_engine.Hooks.{HookEvent, render, call_of, new_hook, hook_run}
use swarm_engine.Hooks.Latest.{direct, renders_in, copies, first_invoke, ref_callback_latest}
use swarm_engine.Router.{visit, IsSettled, redirect_settles}
use swarm_engine.Components.AlertDialog.{
  false_value, promised, thrown, resolved, DialogState, new_dialog, DialogEvent, open_dialog, press,
  action_ends, submit, dialog_run, is_pending,
}
use swarm_engine.Components.AlertDialog.Locks.{loading_while_pending, refused_stays_open}
use swarm_engine.Components.NodeList.{menu, node_row, placeholders, node_list}
use swarm_engine.Components.NodeList.Rows.{
  entries, dashes, expected_dashes, shown_rows, node_list_rows,
}
use swarm_engine.Components.ChatMessages.{
  ScrollState, ScrollEvent, Container, new_scroll, messages_change, scroll, timer, scroll_run,
}
use swarm_engine.Components.ChatMessages.Follow.{scrolled_up_stays, wanted, bottom_follows}
use swarm_engine.Components.ModelSelect.{
  SelectState, SelectEvent, choose, effect, cluster_name, select_run, choices, commits_once,
}
use swarm_engine.Components.DrawerLayout.{
  status_changes, timer_ends, mount, drawer_run, AllAgree, dialogs_agree,
}
use swarm_engine.Pages.Setup.{on_continue, should_init, continue_settles}
use swarm_engine.Components.NumberInput.{
  NumberEvent, change, minus, plus, natural, parse_int, number_run, never_no_nodes,
}
use swarm_engine.Cluster.Setup.{threw, no_nodes, run_init}

redirect_settles_example :
    IsSettled ClusterStatus.available
      (visit ClusterStatus.available (visit ClusterStatus.available (codes "/")))
redirect_settles_example = redirect_settles ClusterStatus.available (codes "/")

abbrev a_view : ClusterView
a_view = record { available = true; model_name = codes "llama" }

abbrev typed : ChatState
typed = record new_chat { input = codes "hi" }

abbrev some_events : List DialogEvent
some_events =
    open_dialog ∷ press promised ∷ submit ∷ action_ends (resolved false_value) ∷ press thrown ∷ []

loading_while_pending_example :
    (dialog_run new_dialog some_events).loading
    ≡ is_pending (dialog_run new_dialog some_events).pending
loading_while_pending_example = loading_while_pending some_events

abbrev opened : DialogState
opened = record new_dialog { is_open = true }

refused_stays_open_example :
    ((dialog_run opened some_events).is_open ≡ true)
    × ((dialog_run opened some_events).closed_calls ≡ opened.closed_calls)
refused_stays_open_example = refused_stays_open opened some_events refl refl

abbrev a_node : NodeInfo
a_node = record {
  id = codes "a";
  status = NodeStatus.failed;
  gpu_number = 1;
  gpu_name = codes "gpu";
  gpu_memory = 24;
}

node_list_rows_example :
    (missing : ℕ) × (entries (node_list menu false ClusterStatus.waiting 3 (a_node ∷ []))
      ≡ map node_row (a_node ∷ []) ++ placeholders missing)
    × (length (a_node ∷ []) + missing ≡ shown_rows ClusterStatus.waiting 3 (length (a_node ∷ [])))
    × (dashes (node_list menu false ClusterStatus.waiting 3 (a_node ∷ []))
        ≡ expected_dashes menu (shown_rows ClusterStatus.waiting 3 (length (a_node ∷ []))))
node_list_rows_example = node_list_rows menu false ClusterStatus.waiting 3 (a_node ∷ [])

abbrev scrolled : ScrollState
scrolled = record new_scroll { prev_scroll_top = 100 }

abbrev a_container : Container
a_container = record { scroll_top = 50; scroll_height = 500; client_height = 100 }

scrolled_up_stays_example :
    ((scroll_run scrolled
        (scroll a_container ∷ messages_change ∷ timer ∷ messages_change ∷ [])).user_scrolled_up
      ≡ true)
    × ((scroll_run scrolled
          (scroll a_container ∷ messages_change ∷ timer ∷ messages_change ∷ [])).scrolls
        ≡ scrolled.scrolls)
scrolled_up_stays_example =
    scrolled_up_stays scrolled (scroll a_container) (messages_change ∷ timer ∷ messages_change ∷ [])
      refl refl

-- While the list scrolls by itself, a scroll event alone is not noticed, and the next message scrolls.
unnoticed :
    (scroll_run
      (record scrolled { auto_scrolling = true })
      (scroll a_container ∷ messages_change ∷ [])).scrolls
    ≡ 1
unfolding scroll_run
unnoticed = refl

abbrev selecting : SelectState
selecting = record {
  can_auto_commit = false;
  config_model_name = codes "a";
  cluster_model_name = codes "a";
  init_calls = 0;
}

abbrev some_choices : List SelectEvent
some_choices = choose (codes "b") ∷ effect ∷ effect ∷ cluster_name (codes "c") ∷ effect ∷ []

commits_once_example :
    (select_run true selecting some_choices).init_calls
    ≤ selecting.init_calls + (if true then choices some_choices else 0)
commits_once_example = commits_once true selecting some_choices refl

dialogs_agree_example :
    AllAgree cluster
      (drawer_run cluster
        (mount cluster ClusterStatus.idle false)
        (timer_ends ∷ status_changes ClusterStatus.waiting ∷ [])).opened
dialogs_agree_example =
    dialogs_agree cluster ClusterStatus.idle false
      (timer_ends ∷ status_changes ClusterStatus.waiting ∷ [])

abbrev chosen : ClusterState
chosen = record initial_state {
  init_nodes_number = 2;
  model_name = codes "qwen";
  node_info_list = a_node ∷ [];
}

continue_settles_example :
    (((on_continue true chosen).navigated ≡ false)
      × ((on_continue true chosen).state ≡ chosen)
      × (should_init chosen ≡ true))
    ⊎ (((on_continue true chosen).navigated ≡ true)
        × (should_init (on_continue true chosen).state ≡ false))
continue_settles_example = continue_settles true chosen

parsed_prefix : parse_int (codes " +12.5") ≡ natural 12
unfolding parse_int is_space
parsed_prefix = refl

abbrev some_numbers : List NumberEvent
some_numbers = change (codes "-3") ∷ minus ∷ plus ∷ change (codes "x") ∷ []

never_no_nodes_example :
    (1 ≤ (number_run initial_state some_numbers).init_nodes_number)
    × (run_init true (number_run initial_state some_numbers) ≢ threw no_nodes)
never_no_nodes_example = never_no_nodes true initial_state some_numbers (omega arith)

abbrev at_bottom : Container
at_bottom = record { scroll_top = 400; scroll_height = 500; client_height = 100 }

abbrev follow_events : List ScrollEvent
follow_events =
    messages_change
    ∷ scroll (record { scroll_top = 399; scroll_height = 560; client_height = 100 })
    ∷ timer
    ∷ messages_change
    ∷ []

bottom_follows_example :
    ((scroll_run scrolled (scroll at_bottom ∷ follow_events)).user_scrolled_up ≡ false)
    × ((scroll_run scrolled (scroll at_bottom ∷ follow_events)).scrolls
        ≡ scrolled.scrolls + wanted follow_events)
bottom_follows_example = bottom_follows scrolled at_bottom follow_events refl refl

-- The function of the first render is called after the second, and one that no render has returned.
abbrev hook_events : List (HookEvent ℕ ℕ)
hook_events =
    render (λ n. n + 1)
    ∷ call_of 0 5
    ∷ render (λ n. n + 2)
    ∷ call_of 0 5
    ∷ call_of 1 5
    ∷ call_of 2 5
    ∷ []

ref_callback_latest_example :
    ((hook_run new_hook hook_events).results ≡ direct none 0 [] hook_events)
    × ((hook_run new_hook hook_events).returned ≡ copies (renders_in hook_events) first_invoke)
ref_callback_latest_example = ref_callback_latest hook_events

hook_results : (hook_run new_hook hook_events).results ≡ some 7 ∷ some 7 ∷ some 6 ∷ []
unfolding hook_run
hook_results = refl
