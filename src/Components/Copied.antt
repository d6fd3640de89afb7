-- ===== src/Components/Copied.antt =====
-- The buttons that copy a text, and the mark that they show for two seconds: a message of
-- src/frontend/src/components/inputs/chat-messages.tsx, and the join commands of
-- src/frontend/src/components/inputs/join-command.tsx. A timer of an effect is pending or not; React runs
-- an effect anew when the state that it depends on has changed.
pub mod Marks
use Prim.Native.Nat.{zero, suc, ◌<◌, ◌≤◌, max, min}
use swarm_engine.Prelude.{
  ℕ, ◌+◌, ◌-◌, ◌*◌, ◌/◌, ◌%◌, String, ◌≡◌, refl, sym, ap, ap₂, subst, ◌∙◌, fun_ext, ◌≢◌, ◌↔◌, ◌⊎◌,
  inl, inr, Bool, true, false, not, ◌&&◌, ◌||◌, Option, none, some, List, [], ◌∷◌, ◌++◌, map,
  append-nil, append_assoc, arith, ltb, leb, ◌==◌, if◌then◌else◌, ==_iff, ==_refl, Bool-cases,
  Option-cases, some_inj, lt→ltb, ge→ltb, ltb→lt, ltb→ge, length, get_elem?, take, drop,
  length-append, take-append-drop, length-drop, take-length-append, drop-append_add, last?, init,
  last?-append, init-append, init-append-last, any, all, filter, find, find_index, length-map,
}
use swarm_engine.Text.{Str, codes, str_eq, truthy}
use swarm_engine.Cluster.{ClusterInfo}

-- The state of a message: `copied`, the timer of its effect, and what it last wrote to
-- the clipboard.
pub record CopiedState : Type 0 where
  pub copied : Bool
  pub timer : Bool
  pub clipboard : Option Str

-- The first render: the effect starts its timer.
abbrev pub new_copied : CopiedState
new_copied = record { copied = false; timer = true; clipboard = none }

-- `setCopied`; a change runs the effect, which starts its timer anew.
unfoldable set_copied : Bool → CopiedState → CopiedState
set_copied true s = if s.copied then s else record s { copied = true; timer = true }
set_copied false s = if s.copied then record s { copied = false; timer = true } else s

-- `onCopy`
unfoldable on_copy : Str → CopiedState → CopiedState
unfolding set_copied
on_copy content s = set_copied true (record s { clipboard = some content })

-- The end of the timer.
unfoldable on_timer : CopiedState → CopiedState
unfolding set_copied
on_timer s = if s.timer then set_copied false (record s { timer = false }) else s

pub data CopyEvent : Type 0 where
  press_copy : Str → CopyEvent
  timer_ends : CopyEvent

unfoldable copied_step : CopiedState → CopyEvent → CopiedState
unfolding on_copy on_timer
copied_step s (press_copy content) = on_copy content s
copied_step s timer_ends = on_timer s

unfoldable pub copied_run : CopiedState → List CopyEvent → CopiedState
unfolding copied_step
copied_run s [] = s
copied_run s (e ∷ es) = copied_run (copied_step s e) es

-- The title and the icon of the button.
pub record CopyButton : Type 0 where
  pub title : Str
  pub check_icon : Bool

abbrev pub copy_button : CopiedState → CopyButton
copy_button s = record {
  title = if s.copied then codes "Copied!" else codes "Copy";
  check_icon = s.copied;
}

-- The state of the join commands: `copiedKey`, the timer of its effect, and what it last wrote to
-- the clipboard.
pub record JoinState : Type 0 where
  pub copied_key : Option Str
  pub timer : Bool
  pub clipboard : Option Str

abbrev pub new_join : JoinState
new_join = record { copied_key = none; timer = false; clipboard = none }

abbrev is_key : Option Str → Str → Bool
is_key none k = false
is_key (some j) k = str_eq j k

-- `nodeJoinCommand[key]`
unfoldable pub command_of : Str → List (Str × Str) → Option Str
unfolding str_eq
command_of key [] = none
command_of key ((k, v) ∷ rest) = if str_eq k key then some v else command_of key rest

-- `setCopiedKey(key)`: a key that changes runs the effect, which starts a timer for a key that is true.
unfoldable set_copied_key : Str → JoinState → JoinState
unfolding str_eq
set_copied_key key s =
    if is_key s.copied_key key then s else record s { copied_key = some key; timer = truthy key }

-- `copy`, when the clipboard has taken the command, and when it has refused.
unfoldable copy : List (Str × Str) → Str → Bool → JoinState → JoinState
unfolding set_copied_key command_of
copy commands key ok s =
    if ok then set_copied_key key (record s { clipboard = command_of key commands }) else s

pub data JoinEvent : Type 0 where
  copy_key : Str → Bool → JoinEvent
  key_timer_ends : JoinEvent

abbrev end_timer : JoinState → JoinState
end_timer s = if s.timer then record s { copied_key = none; timer = false } else s

unfoldable join_step : List (Str × Str) → JoinState → JoinEvent → JoinState
unfolding copy
join_step commands s (copy_key key ok) = copy commands key ok s
join_step commands s key_timer_ends = end_timer s

unfoldable pub join_run : List (Str × Str) → JoinState → List JoinEvent → JoinState
unfolding join_step
join_run commands s [] = s
join_run commands s (e ∷ es) = join_run commands (join_step commands s e) es

-- `LABEL_MAP[key] || key`
unfoldable join_label : Str → Str
unfolding str_eq
join_label key =
    if str_eq key (codes "linux/mac")
    then codes "Linux/MacOS"
    else if str_eq key (codes "windows")
    then codes "Windows"
    else key

-- A command with its label, and whether its button shows the mark.
pub record JoinItem : Type 0 where
  pub label : Option Str
  pub command : Str
  pub check_icon : Bool

abbrev join_item : Bool → JoinState → Str × Str → JoinItem
join_item labelled s (key, value) = record {
  label = if labelled then some (codes "For " ++ (join_label key ++ codes ":")) else none;
  command = value;
  check_icon = is_key s.copied_key key;
}

-- `JoinCommand`: the labels are shown if there are several commands.
unfoldable pub join_items : ClusterInfo → JoinState → List JoinItem
unfolding join_label str_eq
join_items info s = map (join_item (ltb 1 (length info.node_join_command)) s) info.node_join_command
