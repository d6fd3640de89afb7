-- ===== src/Components/NumberInput.antt =====
-- src/frontend/src/components/inputs/number-input.tsx: the field for the number of nodes, over the state of
-- the cluster that the setup page keeps it in. Numbers stay below 2^53, where they are exact.
use Prim.Native.Nat.{◌<◌, ◌≤◌, max}
use swarm_engine.Prelude.{
  ℕ, ◌+◌, ◌-◌, ◌*◌, ◌≡◌, ◌≢◌, ◌⊎◌, inl, inr, Bool, true, false, ◌&&◌, List, [], ◌∷◌, arith, leb,
  ◌==◌, if◌then◌else◌,
}
use swarm_engine.Text.{Str, trim_start, truthy}
use swarm_engine.Cluster.{ClusterState}
use swarm_engine.Cluster.Setup.{
  threw, no_nodes, no_model, scheduler_failed, started, run_init, run_init_cases, IsStarted,
}

-- What `parseInt` gives.
pub data ParsedInt : Type 0 where
  not_a_number : ParsedInt
  negative natural : ℕ → ParsedInt

abbrev is_digit : ℕ → Bool
is_digit c = leb b'0' c && leb c b'9'

-- The value of the digits at the start of a text, behind those that were read.
unfoldable read_digits : ℕ → Str → ℕ
read_digits n [] = n
read_digits n (c ∷ s) =
    let rest = read_digits (n * 10 + (c - b'0')) s in if is_digit c then rest else n

unfoldable unsigned : Str → ParsedInt
unfolding read_digits
unsigned [] = not_a_number
unsigned (c ∷ s) = if is_digit c then natural (read_digits (c - b'0') s) else not_a_number

abbrev negated : ParsedInt → ParsedInt
negated (natural n) = negative n
negated p = p

unfoldable signed : Str → ParsedInt
unfolding unsigned
signed [] = not_a_number
signed (c ∷ s) =
    if c == b'-' then negated (unsigned s) else if c == b'+' then unsigned s else unsigned (c ∷ s)

-- `parseInt` of a text that is no hexadecimal number, which a number field refuses
unfoldable pub parse_int : Str → ParsedInt
unfolding signed trim_start
parse_int s = signed (trim_start s)

-- `Math.max(1, n || 1)`
abbrev at_least_one : ParsedInt → ℕ
at_least_one not_a_number = 1
at_least_one (negative n) = 1
at_least_one (natural n) = max 1 n

-- The text that the user gives, and the two buttons.
pub data NumberEvent : Type 0 where
  change : Str → NumberEvent
  minus plus : NumberEvent

-- `onChange`, `onMinus` and `onPlus`: the number that the owner is told of
unfoldable next_number : ℕ → NumberEvent → ℕ
unfolding parse_int
next_number n (change t) = at_least_one (parse_int t)
next_number n minus = max 1 (n - 1)
next_number n plus = max 1 (n + 1)

-- The owner sets the number of nodes, which the field then shows.
unfoldable pub number_run : ClusterState → List NumberEvent → ClusterState
unfolding next_number
number_run s [] = s
number_run s (e ∷ es) =
    number_run (record s { init_nodes_number = next_number s.init_nodes_number e }) es

at_least_one-positive : (p : ParsedInt) → 1 ≤ at_least_one p
at_least_one-positive not_a_number = omega arith
at_least_one-positive (negative n) = omega arith
at_least_one-positive (natural n) = omega arith

next_number-positive : (n : ℕ) (e : NumberEvent) → 1 ≤ next_number n e
unfolding next_number
next_number-positive n (change t) = at_least_one-positive (parse_int t)
next_number-positive n minus = omega arith
next_number-positive n plus = omega arith

number_run-positive :
    (s : ClusterState) (es : List NumberEvent)
    → 1 ≤ s.init_nodes_number
    → 1 ≤ (number_run s es).init_nodes_number
unfolding number_run
number_run-positive s [] h = h
number_run-positive s (e ∷ es) h =
    number_run-positive (record s { init_nodes_number = next_number s.init_nodes_number e }) es
      (next_number-positive s.init_nodes_number e)

-- Whatever is typed into the field and pressed beside it, from a number that is at least 1 it stays so, and
-- `init` does not throw for a lack of nodes.
pub never_no_nodes :
    (accepted : Bool) (s : ClusterState) (es : List NumberEvent)
    → 1 ≤ s.init_nodes_number
    → (1 ≤ (number_run s es).init_nodes_number)
      × (run_init accepted (number_run s es) ≢ threw no_nodes)
never_no_nodes accepted s es h =
    let p = number_run-positive s es h in (p, go p (run_init_cases accepted (number_run s es)))
  where
    u : ClusterState
    u = number_run s es

    go :
        1 ≤ u.init_nodes_number
        → ((u.init_nodes_number < 1) × (run_init accepted u ≡ threw no_nodes))
          ⊎ ((1 ≤ u.init_nodes_number)
              × (truthy u.model_name ≡ false)
              × (run_init accepted u ≡ threw no_model))
          ⊎ ((1 ≤ u.init_nodes_number)
              × (truthy u.model_name ≡ true)
              × (accepted ≡ false)
              × (run_init accepted u ≡ scheduler_failed))
          ⊎ ((1 ≤ u.init_nodes_number)
              × (truthy u.model_name ≡ true)
              × (accepted ≡ true)
              × IsStarted u (run_init accepted u))
        → run_init accepted u ≢ threw no_nodes
    go p (inl (l, e)) = absurd (omega (arith, l, p))
    go p (inr (inl (l, t, e))) = λ x. cc
    go p (inr (inr (inl (l, t, a, e)))) = λ x. cc
    go p (inr (inr (inr (l, t, a, q)))) =
        λ x. (let e : run_init accepted u ≡ started q.0 q.1 = q.2 in cc)
