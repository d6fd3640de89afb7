-- ===== src/Examples/Services.antt =====
-- The services and the applications at concrete answers and events.
use Prim.Native.Nat.{◌≤◌}
use swarm_engine.Prelude.{
  ℕ, ◌≡◌, refl, ◌↔◌, ◌⊎◌, true, false, Option, none, some, List, [], ◌∷◌, map,
}
use swarm_engine.Text.{str_eq, Str, codes, truthy, starts_with}
use swarm_engine.Json.{str, obj, entry, end, get, is_text}
use swarm_engine.LineBuffer.{feed, concat}
use swarm_engine.StreamClient.{chunk, reject, Flight, find_flight, reading}
use swarm_engine.HttpStream.{new_client}
use swarm_engine.Cluster.{
  ModelInfo, ClusterStatus, ClusterState, StatusData, LogoUrls, HostType, initial_state, node,
}
use swarm_engine.Cluster.Info.{ClusterEvent, run}
use swarm_engine.Cluster.Stream.{Provider, stream_step, stream_run}
use swarm_engine.Cluster.Stream.Updates.{messages_of, heard_by, stream_step_hears}
use swarm_engine.Cluster.Stream.Delivery.{chunks_hear}
use swarm_engine.Cluster.Setup.{no_nodes, no_model, threw, scheduler_failed}
use swarm_engine.Api.{Fetched, rejected, answered, init_call, load_model_list}
use swarm_engine.Api.Init.{Starts, IsAccepted, init_call-Starts}
use swarm_engine.Router.{path_chat, redirect_chat}
use swarm_engine.Components.DrawerLayout.{
  DrawerEvent, status_changes, need_changes, timer_ends, drawer_run, mount,
}
use swarm_engine.Components.ModelSelect.{text, outlined, SelectState, value_row, select_view}
use swarm_engine.App.{use_host, chat_app, main_app, NoWaiting, visit_chat, chat_app_passive}

abbrev some_status : StatusData
some_status = record {
  status = some ClusterStatus.available;
  init_nodes_num = some 2;
  model_name = some (codes "qwen");
  node_join_command = none;
  node_list = [];
  need_more_nodes = none;
}

-- A line of one unit is a status, and any other line does not parse.
abbrev parse_status : Str → Option (Option StatusData)
parse_status (c ∷ []) = some (some some_status)
parse_status _ = none

abbrev reading_flight : Flight
reading_flight = record {
  id = 0;
  sent = record { url = []; method = []; headers = []; body = none };
  armed = false;
  phase = reading;
  buffer = [];
}

abbrev listening : Provider ℕ
listening = record {
  stream = record new_client { flights = reading_flight ∷ []; next_id = 1; reader = some 0 };
  cluster = initial_state;
}

abbrev some_texts : List Str
some_texts = codes "a" ∷ codes "\nbc\nd" ∷ []

chunks_hear_example :
    (q : Provider ℕ) × (stream_run [] parse_status listening (map (λ t. chunk 0 t) some_texts)
      ≡ some q)
    × (q.cluster ≡ run initial_state (messages_of parse_status (feed [] (concat some_texts)).0))
unfolding find_flight
chunks_hear_example =
    chunks_hear [] parse_status listening 0 0 reading_flight some_texts refl refl refl refl

-- The first line is a status, the second does not parse, and the third is not complete.
one_status :
    messages_of parse_status (feed [] (concat some_texts)).0
    ≡ ClusterEvent.message (some some_status) ∷ []
unfolding feed
one_status = refl

abbrev after_reject : Option (Provider ℕ)
after_reject = stream_step [] parse_status listening (reject 0 7 true)

abbrev provider_of : Option (Provider ℕ) → Provider ℕ
provider_of none = listening
provider_of (some p) = p

rejected_steps : after_reject ≡ some (provider_of after_reject)
unfolding stream_step find_flight
rejected_steps = refl

stream_step_hears_example :
    (provider_of after_reject).cluster
    ≡ run initial_state (heard_by {E = ℕ} parse_status (reading_flight ∷ []) (reject 0 7 true))
stream_step_hears_example =
    stream_step_hears [] parse_status listening (reject 0 7 true) rejected_steps

abbrev chosen : ClusterState
chosen = record initial_state { init_nodes_number = 2; model_name = codes "qwen" }

abbrev an_answer : Fetched
an_answer = answered (obj (entry (codes "type") (str (codes "scheduler_init")) end))

init_call-Starts_example :
    (Starts chosen (init_call an_answer chosen)
      ↔ ((1 ≤ chosen.init_nodes_number) × (truthy chosen.model_name ≡ true) × IsAccepted an_answer))
    × (Starts chosen (init_call an_answer chosen)
        ⊎ (init_call an_answer chosen ≡ threw no_nodes)
        ⊎ (init_call an_answer chosen ≡ threw no_model)
        ⊎ (init_call an_answer chosen ≡ scheduler_failed))
init_call-Starts_example = init_call-Starts an_answer chosen

-- A message of another type does not start the cluster.
other_type : init_call (answered (obj end)) chosen ≡ scheduler_failed
unfolding init_call get is_text
other_type = refl

abbrev no_urls : LogoUrls
no_urls = record {
  open_ai = [];
  qwen = [];
  nvidia = [];
  moonshot_ai = [];
  deepseek = [];
  zai = [];
  mini_max = [];
}

abbrev some_select : SelectState
some_select = record {
  can_auto_commit = false;
  config_model_name = [];
  cluster_model_name = [];
  init_calls = 0;
}

abbrev drawer_events : List DrawerEvent
drawer_events =
    status_changes ClusterStatus.waiting
    ∷ need_changes true
    ∷ status_changes ClusterStatus.idle
    ∷ timer_ends
    ∷ []

hosted : use_host chat_app.layers ≡ some node
unfolding use_host
hosted = refl

chat_app_passive_example :
    (load_model_list no_urls node (rejected ∷ an_answer ∷ []) chosen ≡ chosen)
    × NoWaiting (drawer_run node (mount node ClusterStatus.idle false) drawer_events).opened
    × ((select_view text node ClusterStatus.idle [] some_select).read_only ≡ true)
    × (starts_with path_chat (visit_chat (codes "/setup")) ≡ true)
    × (redirect_chat (visit_chat (codes "/setup")) ≡ none)
chat_app_passive_example =
    chat_app_passive node no_urls (rejected ∷ an_answer ∷ []) chosen ClusterStatus.idle false
      drawer_events text [] some_select (codes "/setup") hosted

-- The value of an outlined choice shows the model's logo and names, and on a node it has no icon.
abbrev some_model : ModelInfo
some_model = record {
  name = codes "a";
  display_name = codes "A";
  logo_url = codes "a.svg";
  vram = 8;
}

value_shown :
    (select_view outlined node ClusterStatus.idle
      (some_model ∷ [])
      (record some_select { config_model_name = codes "a" })).shown_value
    ≡ value_row (codes "a.svg") (codes "A") (codes "a")
unfolding select_view str_eq
value_shown = refl

-- The main application runs on the host of the cluster.
main_hosted : use_host main_app.layers ≡ some HostType.cluster
unfolding use_host
main_hosted = refl
