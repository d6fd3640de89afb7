-- ===== src/Components/ChatMessages/Follow.antt =====
-- When the list of messages follows the last message.
use swarm_engine.Prelude.{
  ℕ, ◌+◌, ◌≡◌, refl, sym, subst, inl, inr, Bool, true, false, not, ◌&&◌, ◌||◌, List, [], ◌∷◌, arith,
  ltb, if◌then◌else◌, Bool-cases, all,
}
use swarm_engine.Components.ChatMessages.{
  ScrollState, Container, scroll_to_bottom, on_messages_change, near_bottom, on_scroll, ScrollEvent,
  messages_change, scroll, click_bottom, timer, wheel, touch_move, on_wheel, on_touch_move,
  scroll_step, scroll_run,
}

-- The events that are not the user's wish to see the end: all but the button, and but scrolling that ends
-- near the bottom.
abbrev stays_up : ScrollEvent → Bool
stays_up messages_change = true
stays_up (scroll c) = not (near_bottom c)
stays_up click_bottom = false
stays_up (wheel up) = true
stays_up touch_move = true
stays_up timer = true

-- The user has scrolled up, and the list has scrolled `n` times.
abbrev IsUp : ℕ → ScrollState → Type 0
IsUp n s = (s.user_scrolled_up ≡ true) × (s.scrolls ≡ n)

step-IsUp :
    (n : ℕ) (s : ScrollState) (e : ScrollEvent)
    → stays_up e ≡ true
    → IsUp n s
    → IsUp n (scroll_step s e)
unfolding scroll_step on_messages_change on_scroll on_wheel on_touch_move
step-IsUp n s messages_change k h =
    subst (λ b. IsUp n (if b then s else scroll_to_bottom (record s { auto_scrolling = true })))
      (sym h.0) h
step-IsUp n s (scroll c) k h = (rw (k, h.0) refl, h.1)
step-IsUp n s click_bottom k h = cc
step-IsUp n s (wheel true) k h = (refl, h.1)
step-IsUp n s (wheel false) k h = h
step-IsUp n s touch_move k h = (refl, h.1)
step-IsUp n s timer k h = h

run-IsUp :
    (n : ℕ) (s : ScrollState) (es : List ScrollEvent)
    → all stays_up es ≡ true
    → IsUp n s
    → IsUp n (scroll_run s es)
unfolding scroll_run
run-IsUp n s [] k h = h
run-IsUp n s (e ∷ es) k h = elim (Bool-cases (stays_up e)) [
  | inl r ↦ run-IsUp n (scroll_step s e) es (rw r at k) (step-IsUp n s e r h)
  | inr r ↦ absurd (cc (rw r at k))
]

-- What the list takes for the user's scrolling up: the wheel turned upwards, a touch that moves, and,
-- unless the list scrolls by itself, a scroll event more than two pixels above the last and away from the
-- bottom.
abbrev pub goes_up : ScrollState → ScrollEvent → Bool
goes_up s (wheel up) = up
goes_up s touch_move = true
goes_up s (scroll c) =
    not (near_bottom c) && (not s.auto_scrolling && ltb (c.scroll_top + 2) s.prev_scroll_top)
goes_up s _ = false

noticed :
    (s : ScrollState) (e : ScrollEvent) → goes_up s e ≡ true → IsUp s.scrolls (scroll_step s e)
unfolding scroll_step on_wheel on_touch_move on_scroll
noticed s messages_change h = absurd (cc h)
noticed s (wheel true) h = (refl, refl)
noticed s (wheel false) h = absurd (cc h)
noticed s touch_move h = (refl, refl)
noticed s click_bottom h = absurd (cc h)
noticed s timer h = absurd (cc h)
noticed s (scroll c) h = (
  up (near_bottom c) s.user_scrolled_up s.auto_scrolling (ltb (c.scroll_top + 2) s.prev_scroll_top)
      h,
  refl,
)
  where
    up :
        (near already auto above : Bool)
        → (not near && (not auto && above)) ≡ true
        → (not near && (already || not auto && above)) ≡ true
    up true already auto above h = absurd (cc h)
    up false true auto above h = refl
    up false false auto above h = h

-- A user who turns the wheel upwards or moves a touch, or who scrolls up by more than two pixels away from
-- the bottom while the list does not scroll by itself, is left alone: through any new messages, timers,
-- wheel turns, touches and further scrolling away from the bottom, the list does not scroll.
pub scrolled_up_stays :
    (s : ScrollState) (e : ScrollEvent) (es : List ScrollEvent)
    → goes_up s e ≡ true
    → all stays_up es ≡ true
    → ((scroll_run s (e ∷ es)).user_scrolled_up ≡ true)
      × ((scroll_run s (e ∷ es)).scrolls ≡ s.scrolls)
unfolding scroll_run
scrolled_up_stays s e es h k = run-IsUp s.scrolls (scroll_step s e) es k (noticed s e h)

-- From a position, the user does not scroll up: each scroll event ends near the bottom, or at most two
-- pixels above the last, and there is no touch and no turn of the wheel upwards.
abbrev goes_down : ℕ → List ScrollEvent → Bool
goes_down top [] = true
goes_down top (messages_change ∷ es) = goes_down top es
goes_down top (scroll c ∷ es) =
    (near_bottom c || not (ltb (c.scroll_top + 2) top)) && goes_down c.scroll_top es
goes_down top (wheel up ∷ es) = not up && goes_down top es
goes_down top (touch_move ∷ es) = false
goes_down top (click_bottom ∷ es) = goes_down top es
goes_down top (timer ∷ es) = goes_down top es

-- How many changes of the messages and presses of the button there are.
abbrev pub wanted : List ScrollEvent → ℕ
wanted [] = 0
wanted (messages_change ∷ es) = 1 + wanted es
wanted (click_bottom ∷ es) = 1 + wanted es
wanted (scroll c ∷ es) = wanted es
wanted (wheel up ∷ es) = wanted es
wanted (touch_move ∷ es) = wanted es
wanted (timer ∷ es) = wanted es

-- The list follows, and has scrolled `n` times.
abbrev Follows : ℕ → ScrollState → Type 0
Follows n s = (s.user_scrolled_up ≡ false) × (s.scrolls ≡ n)

later-Follows : (n k : ℕ) (s : ScrollState) → Follows (n + 1 + k) s → Follows (n + (1 + k)) s
later-Follows n k s h = (h.0, omega (arith, h.1))

changed :
    (s : ScrollState)
    → s.user_scrolled_up ≡ false
    → on_messages_change s ≡ scroll_to_bottom (record s { auto_scrolling = true })
unfolding on_messages_change
changed s h = rw h refl

still_down :
    (c : Container) (s : ScrollState)
    → s.user_scrolled_up ≡ false
    → (near_bottom c || not (ltb (c.scroll_top + 2) s.prev_scroll_top)) ≡ true
    → (on_scroll c s).user_scrolled_up ≡ false
unfolding on_scroll
still_down c s h k =
    go (near_bottom c) s.user_scrolled_up s.auto_scrolling
      (ltb (c.scroll_top + 2) s.prev_scroll_top) h k
  where
    go :
        (near up auto above : Bool)
        → up ≡ false
        → (near || not above) ≡ true
        → (not near && (up || not auto && above)) ≡ false
    go true up auto above h k = refl
    go false true auto above h k = absurd (cc h)
    go false false true above h k = refl
    go false false false true h k = absurd (cc k)
    go false false false false h k = refl

both : (a b : Bool) → (a && b) ≡ true → (a ≡ true) × (b ≡ true)
both true b h = (refl, h)
both false b h = absurd (cc h)

run-Follows :
    (s : ScrollState) (es : List ScrollEvent)
    → s.user_scrolled_up ≡ false
    → goes_down s.prev_scroll_top es ≡ true
    → Follows (s.scrolls + wanted es) (scroll_run s es)
unfolding scroll_run scroll_step on_wheel scroll_to_bottom on_scroll
run-Follows s [] h k = (h, omega arith)
run-Follows s (messages_change ∷ es) h k =
    subst (λ t. Follows (s.scrolls + (1 + wanted es)) (scroll_run t es)) (sym (changed s h))
      (let t = scroll_to_bottom (record s { auto_scrolling = true }) in
        later-Follows s.scrolls (wanted es) (scroll_run t es) (run-Follows t es refl k))
run-Follows s (scroll c ∷ es) h k =
    let (a, b) =
      both (near_bottom c || not (ltb (c.scroll_top + 2) s.prev_scroll_top))
        (goes_down c.scroll_top es) k in
    run-Follows (on_scroll c s) es (still_down c s h a) b
run-Follows s (wheel true ∷ es) h k = absurd (cc k)
run-Follows s (wheel false ∷ es) h k = run-Follows s es h k
run-Follows s (touch_move ∷ es) h k = absurd (cc k)
run-Follows s (click_bottom ∷ es) h k =
    let t = scroll_to_bottom s in
    later-Follows s.scrolls (wanted es) (scroll_run t es) (run-Follows t es refl k)
run-Follows s (timer ∷ es) h k = run-Follows (record s { auto_scrolling = false }) es h k

-- The list follows again as soon as the bottom is near: from there, while the user does not scroll up, it
-- scrolls once for each change of the messages and each press of the button, whatever the timers do.
pub bottom_follows :
    (s : ScrollState) (c : Container) (es : List ScrollEvent)
    → near_bottom c ≡ true
    → goes_down c.scroll_top es ≡ true
    → ((scroll_run s (scroll c ∷ es)).user_scrolled_up ≡ false)
      × ((scroll_run s (scroll c ∷ es)).scrolls ≡ s.scrolls + wanted es)
unfolding scroll_run scroll_step on_scroll
bottom_follows s c es b k = run-Follows (on_scroll c s) es (rw b refl) k
