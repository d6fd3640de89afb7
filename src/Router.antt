-- ===== src/Router.antt =====
-- src/frontend/src/router: the redirects of the two applications, and the pages of their paths. A
-- redirect waits 300 ms and is made anew when the path or the status changes; here it is one step.
use swarm_engine.Prelude.{
  ◌≡◌, refl, sym, ap, subst, ◌∙◌, ◌⊎◌, inl, inr, Bool, true, false, not, ◌&&◌, Option, none, some,
  if◌then◌else◌, Bool-cases,
}
use swarm_engine.Text.{Str, codes, str_eq, starts_with}
use swarm_engine.Cluster.{ClusterStatus}

abbrev path_setup : Str
path_setup = codes "/setup"

abbrev path_join : Str
path_join = codes "/join"

abbrev pub path_chat : Str
path_chat = codes "/chat"

abbrev is_idle : ClusterStatus → Bool
is_idle ClusterStatus.idle = true
is_idle _ = false

abbrev is_available : ClusterStatus → Bool
is_available ClusterStatus.available = true
is_available _ = false

-- The effect of `MainRouter`: the path that it navigates to, if any.
unfoldable pub redirect : ClusterStatus → Str → Option Str
unfolding str_eq starts_with
redirect status pathname =
    if str_eq pathname (codes "/")
    then some path_setup
    else if is_idle status && starts_with path_chat pathname
    then some path_setup
    else if is_available status && not (starts_with path_chat pathname)
    then some path_chat
    else none

-- The effect of `ChatRouter`
unfoldable pub redirect_chat : Str → Option Str
unfolding starts_with
redirect_chat pathname = if starts_with path_chat pathname then none else some path_chat

pub data Page : Type 0 where
  setup join chat not_found : Page

-- The routes of `MainRouter` and of `ChatRouter`; `matches` is the test by which `useRoutes` of
-- react-router compares the path of a route with the one of the location.
module _ (matches : Str → Str → Bool) where
  unfoldable route : Str → Page
  route pathname =
      if matches path_setup pathname
      then setup
      else if matches path_join pathname
      then join
      else if matches path_chat pathname
      then chat
      else not_found

  unfoldable route_chat : Str → Page
  route_chat pathname = if matches path_chat pathname then chat else not_found

abbrev pub landed : Str → Option Str → Str
landed pathname none = pathname
landed pathname (some target) = target

-- The path after one run of the effect.
unfoldable pub visit : ClusterStatus → Str → Str
unfolding redirect
visit status pathname = landed pathname (redirect status pathname)

-- The router does not leave this path, and it is the chat's while the cluster is available.
abbrev pub IsSettled : ClusterStatus → Str → Type 0
IsSettled c q =
    (redirect c q ≡ none) × ((is_available c ≡ false) ⊎ (starts_with path_chat q ≡ true))

setup-IsSettled : (c : ClusterStatus) → IsSettled c (visit c path_setup)
unfolding visit
setup-IsSettled ClusterStatus.available = (refl, inr refl)
setup-IsSettled ClusterStatus.idle = (refl, inl refl)
setup-IsSettled ClusterStatus.offline = (refl, inl refl)
setup-IsSettled ClusterStatus.waiting = (refl, inl refl)
setup-IsSettled ClusterStatus.rebalancing = (refl, inl refl)
setup-IsSettled ClusterStatus.failed = (refl, inl refl)

module _ (c : ClusterStatus) (p : Str) where
  stays : IsSettled c p → IsSettled c (visit c (visit c p))
  unfolding visit
  stays h =
      let e : visit c p ≡ p = ap (landed p) h.0 in subst (IsSettled c) (sym (ap (visit c) e ∙ e)) h

  to_setup : redirect c p ≡ some path_setup → IsSettled c (visit c (visit c p))
  unfolding visit
  to_setup h = subst (λ q. IsSettled c (visit c q)) (sym (ap (landed p) h)) (setup-IsSettled c)

to_chat :
    (p : Str)
    → redirect ClusterStatus.available p ≡ some path_chat
    → IsSettled ClusterStatus.available
        (visit ClusterStatus.available (visit ClusterStatus.available p))
unfolding visit
to_chat p h =
    subst (λ q. IsSettled ClusterStatus.available (visit ClusterStatus.available q))
      (sym (ap (landed p) h)) (refl, inr refl)

-- A path under `/chat`.
settles_chat :
    (c : ClusterStatus) (p : Str)
    → str_eq p (codes "/") ≡ false
    → starts_with path_chat p ≡ true
    → IsSettled c (visit c (visit c p))
unfolding redirect
settles_chat ClusterStatus.idle p r h = to_setup ClusterStatus.idle p (rw (r, h) refl)
settles_chat ClusterStatus.available p r h = stays ClusterStatus.available p (rw (r, h) refl, inr h)
settles_chat ClusterStatus.offline p r h = stays ClusterStatus.offline p (rw r refl, inr h)
settles_chat ClusterStatus.waiting p r h = stays ClusterStatus.waiting p (rw r refl, inr h)
settles_chat ClusterStatus.rebalancing p r h = stays ClusterStatus.rebalancing p (rw r refl, inr h)
settles_chat ClusterStatus.failed p r h = stays ClusterStatus.failed p (rw r refl, inr h)

-- Any other path.
settles_other :
    (c : ClusterStatus) (p : Str)
    → str_eq p (codes "/") ≡ false
    → starts_with path_chat p ≡ false
    → IsSettled c (visit c (visit c p))
unfolding redirect
settles_other ClusterStatus.available p r h = to_chat p (rw (r, h) refl)
settles_other ClusterStatus.idle p r h = stays ClusterStatus.idle p (rw (r, h) refl, inl refl)
settles_other ClusterStatus.offline p r h = stays ClusterStatus.offline p (rw r refl, inl refl)
settles_other ClusterStatus.waiting p r h = stays ClusterStatus.waiting p (rw r refl, inl refl)
settles_other ClusterStatus.rebalancing p r h =
    stays ClusterStatus.rebalancing p (rw r refl, inl refl)
settles_other ClusterStatus.failed p r h = stays ClusterStatus.failed p (rw r refl, inl refl)

-- At one status of the cluster, the router settles after at most two redirects, whatever the path: from
-- there it goes nowhere, and while the cluster is available it stands under `/chat`.
pub redirect_settles : (c : ClusterStatus) (p : Str) → IsSettled c (visit c (visit c p))
unfolding redirect
redirect_settles c p = elim (Bool-cases (str_eq p (codes "/"))) [
  | inl r ↦ to_setup c p (rw r refl)
  | inr r ↦ elim (Bool-cases (starts_with path_chat p)) [
    | inl h ↦ settles_chat c p r h
    | inr h ↦ settles_other c p r h
  ]
]
