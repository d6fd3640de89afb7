-- ===== src/App.antt =====
-- src/frontend/src/App.tsx and src/frontend/src/services/host.tsx: the two applications, which main.tsx
-- and chat.tsx mount, with their providers and the kind of host that they run on.
pub mod Contexts
use swarm_engine.Prelude.{
  ◌≡◌, refl, ap, subst, ◌∙◌, inl, inr, Bool, true, false, Option, none, some, List, [], ◌∷◌,
  Bool-cases, some_inj,
}
use swarm_engine.Text.{Str, starts_with}
use swarm_engine.Cluster.{
  ModelInfo, ClusterStatus, ClusterState, LogoUrls, HostType, cluster, node, update_model_list,
}
use swarm_engine.Api.{Fetched, load_model_list}
use swarm_engine.Router.{path_chat, redirect_chat, landed}
use swarm_engine.Components.DrawerLayout.{
  DrawerDialog, waiting_dialog, rebalancing_dialog, need_more_nodes_dialog, failed_dialog,
  DrawerEvent, drawer_run, mount, AllAgree, dialogs_agree,
}
use swarm_engine.Components.ModelSelect.{SelectVariant, SelectState, select_view}

-- The layers of `Providers`.
pub data Layer : Type 0 where
  strict_mode hash_router theme_provider app_root : Layer
  host_provider : HostType → Layer
  cluster_provider chat_provider : Layer

pub data RouterKind : Type 0 where
  main_router chat_router : RouterKind

pub record App : Type 0 where
  pub layers : List Layer
  pub router : RouterKind

-- `Providers`, the outermost first.
abbrev providers : HostType → List Layer
providers type =
    strict_mode
    ∷ hash_router
    ∷ theme_provider
    ∷ app_root
    ∷ host_provider type
    ∷ cluster_provider
    ∷ chat_provider
    ∷ []

-- `Main` and `Chat`
abbrev pub main_app : App
main_app = record { layers = providers cluster; router = main_router }

abbrev pub chat_app : App
chat_app = record { layers = providers node; router = chat_router }

abbrev provided : Layer → Option HostType → Option HostType
provided l (some h) = some h
provided (host_provider h) none = some h
provided _ none = none

-- `useHost`: the value of the nearest provider; `none` is the exception outside of one.
unfoldable pub use_host : List Layer → Option HostType
use_host [] = none
use_host (l ∷ ls) = provided l (use_host ls)

-- The path of an application after one run of its router's effect.
unfoldable pub visit_chat : Str → Str
unfolding redirect_chat
visit_chat pathname = landed pathname (redirect_chat pathname)

abbrev IsWaitingDialog : DrawerDialog → Type 0
IsWaitingDialog waiting_dialog = Unit
IsWaitingDialog _ = ⊥

-- None of the dialogs that were opened is the one for a waiting cluster.
abbrev pub NoWaiting : List (DrawerDialog × ClusterStatus × Bool) → Type 0
NoWaiting [] = Unit
NoWaiting ((d, c, b) ∷ ds) = (IsWaitingDialog d → ⊥) × NoWaiting ds

node-NoWaiting : (ds : List (DrawerDialog × ClusterStatus × Bool)) → AllAgree node ds → NoWaiting ds
node-NoWaiting [] a = tt
node-NoWaiting ((waiting_dialog, c, b) ∷ ds) ((h, k), a) = (λ _. clash h, node-NoWaiting ds a)
  where
    clash : node ≡ cluster → ⊥
    clash e = cc
node-NoWaiting ((rebalancing_dialog, c, b) ∷ ds) (h, a) = (λ w. w, node-NoWaiting ds a)
node-NoWaiting ((need_more_nodes_dialog, c, b) ∷ ds) (h, a) = (λ w. w, node-NoWaiting ds a)
node-NoWaiting ((failed_dialog, c, b) ∷ ds) (h, a) = (λ w. w, node-NoWaiting ds a)

not_redirected : (p : Str) → starts_with path_chat p ≡ true → redirect_chat p ≡ none
unfolding redirect_chat
not_redirected p h = rw h refl

redirected : (p : Str) → starts_with path_chat p ≡ false → redirect_chat p ≡ some path_chat
unfolding redirect_chat
redirected p h = rw h refl

visit_chat-chat : (p : Str) → starts_with path_chat (visit_chat p) ≡ true
unfolding visit_chat starts_with
visit_chat-chat p = elim (Bool-cases (starts_with path_chat p)) [
  | inl e ↦ ap (λ o. starts_with path_chat (landed p o)) (not_redirected p e) ∙ e
  | inr e ↦ ap (λ o. starts_with path_chat (landed p o)) (redirected p e)
]

not_loaded :
    (urls : LogoUrls) (answers : List Fetched) (s : ClusterState)
    → load_model_list urls node answers s ≡ s
unfolding load_model_list update_model_list
not_loaded urls answers s = refl

read_only_node :
    (v : SelectVariant) (c : ClusterStatus) (models : List ModelInfo) (select : SelectState)
    → (select_view v node c models select).read_only ≡ true
unfolding select_view
read_only_node v c models select = refl

-- The chat application, on the host of a node, does not act for the cluster, whatever the answers, the
-- events and the path: it does not load the list of models, its layout never opens the dialog of a
-- waiting cluster, its choice of a model is read only, and its router stands under `/chat` after one
-- redirect and goes nowhere from there.
pub chat_app_passive :
    (h : HostType) (urls : LogoUrls) (answers : List Fetched) (s : ClusterState) (c : ClusterStatus)
    (b : Bool) (es : List DrawerEvent) (v : SelectVariant) (models : List ModelInfo)
    (select : SelectState) (p : Str)
    → use_host chat_app.layers ≡ some h
    → (load_model_list urls h answers s ≡ s)
      × NoWaiting (drawer_run h (mount h c b) es).opened
      × ((select_view v h c models select).read_only ≡ true)
      × (starts_with path_chat (visit_chat p) ≡ true)
      × (redirect_chat (visit_chat p) ≡ none)
unfolding use_host
chat_app_passive h urls answers s c b es v models select p e =
    let k : node ≡ h = some_inj e in
    (
      subst (λ x. load_model_list urls x answers s ≡ s) k (not_loaded urls answers s),
      subst (λ x. NoWaiting (drawer_run x (mount x c b) es).opened) k
          (node-NoWaiting (drawer_run node (mount node c b) es).opened (dialogs_agree node c b es)),
      subst (λ x. (select_view v x c models select).read_only ≡ true) k
          (read_only_node v c models select),
      visit_chat-chat p,
      not_redirected (visit_chat p) (visit_chat-chat p),
    )
