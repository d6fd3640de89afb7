-- ===== src/Examples/Together.antt =====
-- The providers together: a chat of a cluster that becomes available and is lost.
use swarm_engine.Prelude.{
  ◌≡◌, refl, ◌⊎◌, true, false, Option, none, some, List, [], ◌∷◌, ◌++◌, length,
}
use swarm_engine.Text.{Str, codes}
use swarm_engine.Json.{Json}
use swarm_engine.StreamClient.{send, response, chunk, reject}
use swarm_engine.Cluster.{ClusterStatus, StatusData}
use swarm_engine.Chat.Connection.{set_input, generate_of}
use swarm_engine.Services.{
  StatusParser, Services, ServicesEvent, of_stream, of_chat, new_services, services_step,
  services_run,
}
use swarm_engine.Cluster.Stream.Words.{last_word}
use swarm_engine.Services.Mirror.{info_of, mirrors_word}
use swarm_engine.Services.Sending.{IsAllowed, sends_while_told}

abbrev a_word : StatusData
a_word = record {
  status = some ClusterStatus.available;
  init_nodes_num = some 2;
  model_name = some (codes "qwen");
  node_join_command = none;
  node_list = [];
  need_more_nodes = none;
}

-- Any line is a status message.
abbrev reads_word : StatusParser
reads_word line = some (some a_word)

abbrev reads_nothing : Str → Option Json
reads_nothing line = none

abbrev told_events : List (ServicesEvent Str)
told_events =
    of_stream (send none)
    ∷ of_stream (
        response 0 (record {
          status = 200;
          content_type = some (codes "application/x-ndjson");
          has_body = true;
        }))
    ∷ of_stream (chunk 0 (codes "{}\n"))
    ∷ of_chat (set_input (codes "hi"))
    ∷ []

-- A call of `generate`; what it sees of the cluster is the provider's.
abbrev asks : ServicesEvent Str
asks = of_chat (generate_of (record { available = false; model_name = [] }) none (codes "7") 7)

abbrev or_new : Option (Services Str) → Services Str
or_new none = new_services
or_new (some s) = s

abbrev told : Services Str
told = or_new (services_run [] reads_word reads_nothing new_services told_events)

abbrev asked : Services Str
asked = or_new (services_step [] reads_word reads_nothing told asks)

told_runs : services_run [] reads_word reads_nothing new_services told_events ≡ some told
unfolding services_run
told_runs = refl

asked_runs : services_step [] reads_word reads_nothing told asks ≡ some asked
unfolding services_run services_step
asked_runs = refl

one_request : length asked.chat.requests ≡ 1
unfolding services_run services_step
one_request = refl

sends_while_told_example : (asked.chat.requests ≡ told.chat.requests) ⊎ IsAllowed told asked
sends_while_told_example =
    sends_while_told [] reads_word reads_nothing told_events told asks asked told_runs asked_runs

mirrors_word_example :
    (told.provider.cluster.cluster_info ≡ info_of (last_word told.provider.stream.log))
    × (told.provider.cluster.cluster_info.model_info ≡ none)
mirrors_word_example = mirrors_word [] reads_word reads_nothing told_events told told_runs refl

available_model : told.provider.cluster.cluster_info.model_name ≡ codes "qwen"
unfolding services_run
available_model = refl

-- After a failure of the stream the chat sends nothing.
no_request :
    (or_new (
      services_run [] reads_word reads_nothing new_services
        (told_events ++ of_stream (reject 0 (codes "lost") true) ∷ asks ∷ []))).chat.requests
    ≡ []
unfolding services_run
no_request = refl
