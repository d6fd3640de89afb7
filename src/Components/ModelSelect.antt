-- ===== src/Components/ModelSelect.antt =====
-- src/frontend/src/components/inputs/model-select.tsx: the choice of the model, and the options.
use Prim.Native.Nat.{◌≤◌}
use swarm_engine.Prelude.{
  ℕ, ◌+◌, ◌*◌, ◌≡◌, refl, ap, Bool, true, false, not, ◌&&◌, ◌||◌, Option, none, some, List, [], ◌∷◌,
  map, arith, if◌then◌else◌, find,
}
use swarm_engine.Text.{Str, str_eq}
use swarm_engine.Cluster.{ModelInfo, ClusterStatus, HostType, node}

-- `canAutoCommit`, the two names of the clusters service, and how often `init` was called.
pub record SelectState : Type 0 where
  pub can_auto_commit : Bool
  pub config_model_name : Str
  pub cluster_model_name : Str
  pub init_calls : ℕ

-- `onChange`
unfoldable on_change : Bool → Str → SelectState → SelectState
on_change auto_commit name s = record s {
  can_auto_commit = s.can_auto_commit || auto_commit;
  config_model_name = name;
}

-- The effect
unfoldable commit_effect : SelectState → SelectState
unfolding str_eq
commit_effect s =
    if s.can_auto_commit && not (str_eq s.config_model_name s.cluster_model_name)
    then record s { can_auto_commit = false; init_calls = s.init_calls + 1 }
    else s

-- A choice, a run of the effect, and a name that the service gives.
pub data SelectEvent : Type 0 where
  choose : Str → SelectEvent
  effect : SelectEvent
  config_name cluster_name : Str → SelectEvent

unfoldable select_step : Bool → SelectState → SelectEvent → SelectState
unfolding on_change commit_effect
select_step auto_commit s (choose name) = on_change auto_commit name s
select_step auto_commit s effect = commit_effect s
select_step auto_commit s (config_name name) = record s { config_model_name = name }
select_step auto_commit s (cluster_name name) = record s { cluster_model_name = name }

unfoldable pub select_run : Bool → SelectState → List SelectEvent → SelectState
unfolding select_step
select_run auto_commit s [] = s
select_run auto_commit s (e ∷ es) = select_run auto_commit (select_step auto_commit s e) es

pub data OptionIcon : Type 0 where
  no_icon loader check : OptionIcon

-- What an option shows. `spins` says that its status turns.
pub record OptionView : Type 0 where
  pub value : Str
  pub icon : OptionIcon
  pub spins : Bool
  pub logo_url : Str
  pub display_name : Str

-- `renderOption`
unfoldable render_option : ModelInfo → Bool → Bool → OptionView
render_option m selected loading = record {
  value = m.name;
  icon = if loading then loader else if selected then check else no_icon;
  spins = loading;
  logo_url = m.logo_url;
  display_name = m.display_name;
}

abbrev is_idle_status : ClusterStatus → Bool
is_idle_status ClusterStatus.idle = true
is_idle_status _ = false

unfoldable option_of : ClusterStatus → SelectState → ModelInfo → OptionView
unfolding str_eq render_option
option_of c s m =
    render_option m (str_eq m.name s.config_model_name || str_eq m.name s.cluster_model_name) (
      not (is_idle_status c)
      && (str_eq m.name s.config_model_name
          && not (str_eq s.config_model_name s.cluster_model_name)))

pub data SelectVariant : Type 0 where
  outlined text : SelectVariant

-- The value as it is shown: a text, or the logo of a model with its two names.
pub data ValueView : Type 0 where
  plain : Str → ValueView
  value_row : Str → Str → Str → ValueView

abbrev value_of : SelectVariant → Str → Option ModelInfo → ValueView
value_of v value none = plain value
value_of outlined value (some m) = value_row m.logo_url m.display_name m.name
value_of text value (some m) = plain m.name

-- `renderValue`
unfoldable render_value : SelectVariant → List ModelInfo → Str → ValueView
unfolding str_eq
render_value v models value = value_of v value (find (λ m. str_eq m.name value) models)

-- What `ModelSelect` shows. Its own icon may be taken away, and its input has an outline or not.
pub record SelectView : Type 0 where
  pub read_only : Bool
  pub has_icon : Bool
  pub has_outline : Bool
  pub value : Str
  pub shown_value : ValueView
  pub options : List OptionView

abbrev is_node : HostType → Bool
is_node node = true
is_node _ = false

abbrev is_outlined : SelectVariant → Bool
is_outlined outlined = true
is_outlined text = false

unfoldable pub select_view :
    SelectVariant → HostType → ClusterStatus → List ModelInfo → SelectState → SelectView
unfolding option_of render_value
select_view v h c models s = record {
  read_only = is_node h;
  has_icon = not (is_node h);
  has_outline = is_outlined v;
  value = s.config_model_name;
  shown_value = render_value v models s.config_model_name;
  options = map (option_of c s) models;
}

-- How many choices stand in a list of events.
abbrev pub choices : List SelectEvent → ℕ
choices [] = 0
choices (choose name ∷ es) = 1 + choices es
choices (_ ∷ es) = choices es

abbrev owed : Bool → ℕ
owed true = 1
owed false = 0

effect-owed :
    (s : SelectState)
    → (commit_effect s).init_calls + owed (commit_effect s).can_auto_commit
      ≤ s.init_calls + owed s.can_auto_commit
unfolding commit_effect
effect-owed s = go s.can_auto_commit refl (str_eq s.config_model_name s.cluster_model_name)
  where
    go :
        (a : Bool)
        → s.can_auto_commit ≡ a
        → (b : Bool)
        → (if a && not b
              then record s { can_auto_commit = false; init_calls = s.init_calls + 1 }
              else s).init_calls
            + owed
                (if a && not b
                  then record s { can_auto_commit = false; init_calls = s.init_calls + 1 }
                  else s).can_auto_commit
          ≤ s.init_calls + owed a
    go true e true = rw e (omega arith)
    go true e false = omega arith
    go false e b = rw e (omega arith)

owed_or : (a b : Bool) → owed (a || b) ≤ owed a + owed b
owed_or true b = omega arith
owed_or false b = omega arith

-- The calls of `init` that were made, or that are still to be made, are at most one for each choice.
run-owed :
    (auto : Bool) (s : SelectState) (es : List SelectEvent)
    → (select_run auto s es).init_calls + owed (select_run auto s es).can_auto_commit
      ≤ s.init_calls + owed s.can_auto_commit + owed auto * choices es
unfolding select_run select_step on_change
run-owed auto s [] = omega arith
run-owed true s (choose name ∷ es) =
    omega (arith, run-owed true (on_change true name s) es, owed_or s.can_auto_commit true)
run-owed false s (choose name ∷ es) =
    omega (arith, run-owed false (on_change false name s) es, owed_or s.can_auto_commit false)
run-owed true s (effect ∷ es) = omega (arith, run-owed true (commit_effect s) es, effect-owed s)
run-owed false s (effect ∷ es) = omega (arith, run-owed false (commit_effect s) es, effect-owed s)
run-owed auto s (config_name n ∷ es) = run-owed auto (record s { config_model_name = n }) es
run-owed auto s (cluster_name n ∷ es) = run-owed auto (record s { cluster_model_name = n }) es

-- The component calls `init` at most once for each choice of the user, however often its effect runs and
-- whatever names the service gives in between; without `autoCommit` it never does.
pub commits_once :
    (auto : Bool) (s : SelectState) (es : List SelectEvent)
    → s.can_auto_commit ≡ false
    → (select_run auto s es).init_calls ≤ s.init_calls + (if auto then choices es else 0)
commits_once true s es h = omega (arith, run-owed true s es, ap owed h)
commits_once false s es h = omega (arith, run-owed false s es, ap owed h)
