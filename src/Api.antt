-- ===== src/Api.antt =====
-- src/frontend/src/services/api.ts: the two requests of the clusters service, and what
-- src/frontend/src/services/cluster.tsx makes of their answers. `base` is `API_BASE_URL`.
pub mod Init
use Prim.Native.Nat.{zero, suc, ◌<◌, ◌≤◌, max, min}
use swarm_engine.Prelude.{
  ℕ, ◌+◌, ◌-◌, ◌*◌, ◌/◌, ◌%◌, String, ◌≡◌, refl, sym, ap, ap₂, subst, ◌∙◌, fun_ext, ◌≢◌, ◌↔◌, ◌⊎◌,
  inl, inr, Bool, true, false, not, ◌&&◌, ◌||◌, Option, none, some, List, [], ◌∷◌, ◌++◌, map,
  append-nil, append_assoc, arith, ltb, leb, ◌==◌, if◌then◌else◌, ==_iff, ==_refl, Bool-cases,
  Option-cases, some_inj, lt→ltb, ge→ltb, ltb→lt, ltb→ge, length, get_elem?, take, drop,
  length-append, take-append-drop, length-drop, take-length-append, drop-append_add, last?, init,
  last?-append, init-append, init-append-last, any, all, filter, find, find_index, length-map,
}
use swarm_engine.Text.{Str, codes, str_eq, truthy}
use swarm_engine.Json.{
  Json, undefined, null, bool, num, str, arr, obj, Fields, end, entry, get, is_text, elements,
  is_nullish,
}
use swarm_engine.Cluster.{
  ClusterStatus, ClusterState, RawModel, LogoUrls, HostType, update_model_list,
}
use swarm_engine.Cluster.Setup.{
  InitParams, InitResult, started, threw, scheduler_failed, no_nodes, no_model, run_init, InitError,
  is_local, run_init_cases, IsStarted,
}

-- What `fetch` and `response.json()` give: a rejection, or the message.
pub data Fetched : Type 0 where
  rejected : Fetched
  answered : Json → Fetched

-- How a call fails: it is rejected, the message is `null`, or its type is another.
pub data ApiError : Type 0 where
  fetch_failed unreadable : ApiError
  invalid_message_type : Json → ApiError

pub data ApiResult : Type 0 where
  returned : Json → ApiResult
  failed_with : ApiError → ApiResult

-- The part of both functions behind the request: the test of the type, and the data.
unfoldable message_data : Str → Fetched → ApiResult
unfolding get is_text
message_data type rejected = failed_with fetch_failed
message_data type (answered message) =
    if is_nullish message
    then failed_with unreadable
    else if is_text (get (codes "type") message) type
    then returned (get (codes "data") message)
    else failed_with (invalid_message_type (get (codes "type") message))

pub record ApiRequest : Type 0 where
  pub url : Str
  pub method : Str
  pub body : Option Json

abbrev model_list_request : Str → ApiRequest
model_list_request base = record {
  url = base ++ codes "/model/list";
  method = codes "GET";
  body = none;
}

abbrev init_body : InitParams → Json
init_body p = obj (
    entry (codes "model_name") (str p.model_name) (
      entry (codes "init_nodes_num") (num p.init_nodes_num)
        (entry (codes "is_local_network") (bool p.is_local_network) end)))

abbrev init_request : Str → InitParams → ApiRequest
init_request base p = record {
  url = base ++ codes "/scheduler/init";
  method = codes "POST";
  body = some (init_body p);
}

-- `getModelList` and `initScheduler`
unfoldable get_model_list : Fetched → ApiResult
unfolding message_data
get_model_list = message_data (codes "model_list")

unfoldable init_scheduler : Fetched → ApiResult
unfolding message_data
init_scheduler = message_data (codes "scheduler_init")

-- `vram_gb || 0`, of a number; the interface of the models has no other.
abbrev vram_of : Json → Option ℕ
vram_of (num n) = some n
vram_of _ = none

-- An entry of the list. It throws if the entry has no fields, and if its name is true and no text.
unfoldable raw_model : Json → Option RawModel
unfolding get
raw_model m = if is_nullish m then none else elim (get (codes "name") m) [
  | str s ↦ some (record { name = some s; vram_gb = vram_of (get (codes "vram_gb") m) })
  | arr xs ↦ none
  | obj fs ↦ none
  | bool b ↦
      if b then none else some (record { name = none; vram_gb = vram_of (get (codes "vram_gb") m) })
  | num n ↦
      if ltb 0 n
      then none
      else some (record { name = none; vram_gb = vram_of (get (codes "vram_gb") m) })
  | undefined ↦ some (record { name = none; vram_gb = vram_of (get (codes "vram_gb") m) })
  | null ↦ some (record { name = none; vram_gb = vram_of (get (codes "vram_gb") m) })
]

unfoldable raw_models : List Json → Option (List RawModel)
unfolding raw_model
raw_models [] = some []
raw_models (m ∷ ms) = elim (raw_model m) [
  | none ↦ none
  | some r ↦ elim (raw_models ms) [ none ↦ none | some rs ↦ some (r ∷ rs) ]
]

-- An attempt of `updateModelList`: only an array has `map`.
unfoldable attempt : Fetched → Option (List RawModel)
unfolding get_model_list raw_models elements
attempt o = elim (get_model_list o) [
  | failed_with e ↦ none
  | returned d ↦ elim d [ arr xs ↦ raw_models (elements (arr xs)) | _ ↦ none ]
]

-- `updateModelList`, over the answers of its attempts.
unfoldable pub load_model_list : LogoUrls → HostType → List Fetched → ClusterState → ClusterState
unfolding attempt update_model_list
load_model_list urls host answers = update_model_list urls host (map attempt answers)

abbrev accepted : ApiResult → Bool
accepted (returned d) = true
accepted (failed_with e) = false

-- `init`, with the answer of the scheduler.
unfoldable pub init_call : Fetched → ClusterState → InitResult
unfolding init_scheduler run_init
init_call o s = run_init (accepted (init_scheduler o)) s
