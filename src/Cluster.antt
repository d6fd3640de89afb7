-- ===== src/Cluster.antt =====
-- src/frontend/src/services/cluster.tsx: the state of `ClusterProvider`, what a status message makes
-- of it, and the actions.
pub mod Update
pub mod Nodes
pub mod Info
pub mod Setup
pub mod ModelName
pub mod Stream
use Prim.Native.Nat.{zero, suc}
use swarm_engine.Prelude.{
  ℕ, Bool, false, ◌||◌, Option, none, some, List, [], ◌∷◌, map, ◌==◌, if◌then◌else◌, find,
}
use swarm_engine.Text.{Str, codes, str_eq, to_lower, split}

-- The addresses of the logo files, which the build gives.
pub record LogoUrls : Type 0 where
  pub open_ai : Str
  pub qwen : Str
  pub nvidia : Str
  pub moonshot_ai : Str
  pub deepseek : Str
  pub zai : Str
  pub mini_max : Str

abbrev logo_url_map : LogoUrls → List (Str × Str)
logo_url_map u =
    (codes "openai", u.open_ai)
    ∷ (codes "qwen", u.qwen)
    ∷ (codes "nvidia", u.nvidia)
    ∷ (codes "moonshotai", u.moonshot_ai)
    ∷ (codes "deepseek", u.deepseek)
    ∷ (codes "zai", u.zai)
    ∷ (codes "minimaxai", u.mini_max)
    ∷ []

unfoldable lookup_or_empty : Str → List (Str × Str) → Str
lookup_or_empty k [] = []
lookup_or_empty k ((j, v) ∷ m) = if str_eq j k then v else lookup_or_empty k m

-- `[-/]`
abbrev is_separator : ℕ → Bool
is_separator c = c == b'-' || c == b'/'

abbrev first_part : List Str → Str
first_part [] = []
first_part (p ∷ ps) = p

unfoldable get_logo_url : LogoUrls → Str → Str
unfolding to_lower split lookup_or_empty str_eq
get_logo_url u name =
    lookup_or_empty (first_part (split is_separator (to_lower name))) (logo_url_map u)

pub record ModelInfo : Type 0 where
  pub name : Str
  pub display_name : Str
  pub logo_url : Str
  pub vram : ℕ

pub data ClusterStatus : Type 0 where
  offline idle waiting available rebalancing failed : ClusterStatus

pub data NodeStatus : Type 0 where
  waiting available failed : NodeStatus

pub record ClusterInfo : Type 0 where
  pub id : Str
  pub status : ClusterStatus
  pub model_name : Str
  pub model_info : Option ModelInfo
  pub node_join_command : List (Str × Str)
  pub init_nodes_number : ℕ
  pub need_more_nodes : Bool

abbrev pub initial_cluster_info : ClusterInfo
initial_cluster_info = record {
  id = [];
  status = offline;
  model_name = [];
  model_info = none;
  node_join_command = [];
  init_nodes_number = 4;
  need_more_nodes = false;
}

pub record NodeInfo : Type 0 where
  pub id : Str
  pub status : NodeStatus
  pub gpu_number : ℕ
  pub gpu_name : Str
  pub gpu_memory : ℕ

pub data NetworkType : Type 0 where
  local remote : NetworkType

pub data HostType : Type 0 where
  cluster node : HostType

-- The states of the provider. `captured` is the model list that the message handler sees: the handler is
-- made once, in the first render, and keeps that render's list.
pub record ClusterState : Type 0 where
  pub network_type : NetworkType
  pub init_nodes_number : ℕ
  pub model_name : Str
  pub model_info_list : List ModelInfo
  pub cluster_info : ClusterInfo
  pub node_info_list : List NodeInfo
  pub captured : List ModelInfo

abbrev pub initial_state : ClusterState
initial_state = record {
  network_type = local;
  init_nodes_number = 1;
  model_name = [];
  model_info_list = [];
  cluster_info = initial_cluster_info;
  node_info_list = [];
  captured = [];
}

-- An entry of the model list that the server sends.
pub record RawModel : Type 0 where
  pub name : Option Str
  pub vram_gb : Option ℕ

-- `x || d`, of a value that may be absent.
abbrev number_or : ℕ → Option ℕ → ℕ
number_or d none = d
number_or d (some zero) = d
number_or d (some (suc n)) = suc n

abbrev pub text_or_empty : Option Str → Str
text_or_empty none = []
text_or_empty (some s) = s

unfoldable model_info_of : LogoUrls → RawModel → ModelInfo
unfolding get_logo_url
model_info_of u m = record {
  name = text_or_empty m.name;
  display_name = text_or_empty m.name;
  logo_url = get_logo_url u (text_or_empty m.name);
  vram = number_or 0 m.vram_gb;
}

-- `updateModelList`: one answer for each attempt, `none` for an error, after which it waits and tries
-- again. The result is `none` while no attempt has succeeded.
unfoldable pub load_models : LogoUrls → List (Option (List RawModel)) → Option (List ModelInfo)
unfolding model_info_of
load_models u [] = none
load_models u (none ∷ answers) = load_models u answers
load_models u (some raw ∷ answers) = some (map (model_info_of u) raw)

abbrev pub loaded : Option (List ModelInfo) → ClusterState → ClusterState
loaded none s = s
loaded (some next) s = record s { model_info_list = next }

unfoldable pub update_model_list :
    LogoUrls → HostType → List (Option (List RawModel)) → ClusterState → ClusterState
unfolding load_models
update_model_list u node answers s = s
update_model_list u cluster answers s = loaded (load_models u answers) s

unfoldable pub reset : ClusterState → ClusterState
reset s = record s { cluster_info = initial_cluster_info; node_info_list = [] }

-- An entry of the node list that the server sends.
pub record RawNode : Type 0 where
  pub node_id : Str
  pub status : NodeStatus
  pub gpu_num : Option ℕ
  pub gpu_name : Option Str
  pub gpu_memory : Option ℕ

-- The data of a `cluster_status` message.
pub record StatusData : Type 0 where
  pub status : Option ClusterStatus
  pub init_nodes_num : Option ℕ
  pub model_name : Option Str
  pub node_join_command : Option (List (Str × Str))
  pub node_list : List RawNode
  pub need_more_nodes : Option Bool

unfoldable node_info_of : RawNode → NodeInfo
node_info_of n = record {
  id = n.node_id;
  status = n.status;
  gpu_number = number_or 1 n.gpu_num;
  gpu_name = text_or_empty n.gpu_name;
  gpu_memory = number_or 0 n.gpu_memory;
}

-- `find((model) => model.name === name)`, of a name that may be absent
unfoldable pub find_model : Option Str → List ModelInfo → Option ModelInfo
unfolding str_eq
find_model none models = none
find_model (some name) models = find (λ m. str_eq m.name name) models

-- `(model_name && status) || 'idle'`
unfoldable pub status_of : Option Str → Option ClusterStatus → ClusterStatus
status_of none status = idle
status_of (some []) status = idle
status_of (some (c ∷ n)) none = idle
status_of (some (c ∷ n)) (some s) = s

unfoldable pub next_cluster_info : List ModelInfo → StatusData → ClusterInfo → ClusterInfo
unfolding status_of find_model
next_cluster_info models d prev = record prev {
  status = status_of d.model_name d.status;
  init_nodes_number = number_or 0 d.init_nodes_num;
  model_name = text_or_empty d.model_name;
  model_info = find_model d.model_name models;
  node_join_command = elim d.node_join_command [ none ↦ [] | some c ↦ c ];
  need_more_nodes = elim d.need_more_nodes [ none ↦ false | some b ↦ b ];
}
