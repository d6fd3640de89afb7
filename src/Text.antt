-- ===== src/Text.antt =====
-- JavaScript strings as lists of UTF-16 code units, and the methods of `String` that the front end
-- calls: `===`, `trim`, `startsWith`, `includes`, `indexOf`, `substring`, `replace` with the empty
-- replacement, `split`, `toLowerCase` and `join`.
pub mod Search
pub mod Infix
pub mod Split
pub mod Trim
use Prim.Native.Nat.{min, max}
use Prim.Native.Char.{code}
use swarm_engine.Prelude.{
  ℕ, suc, ◌+◌, ◌-◌, String, ◌≡◌, refl, ◌↔◌, subst, Bool, true, false, ◌&&◌, ◌||◌, Option, none,
  some, List, [], ◌∷◌, ◌++◌, map, arith, leb, ◌==◌, ==_iff, if◌then◌else◌, length, take, drop,
}

abbrev pub Str : Type 0
Str = List ℕ

-- The code units of a literal (every literal of the source is ASCII).
abbrev pub codes : String → Str
codes String.[] = []
codes (String.◌∷◌ c s) = code c ∷ codes s

-- `a === b`
unfoldable pub str_eq : Str → Str → Bool
str_eq [] [] = true
str_eq (a ∷ s) (b ∷ t) = a == b && str_eq s t
str_eq _ _ = false

pub str_eq_refl : (s : Str) → str_eq s s ≡ true
unfolding str_eq
str_eq_refl [] = refl
str_eq_refl (a ∷ s) = ground (arith, str_eq_refl s)

eq_of_str_eq : (s t : Str) → str_eq s t ≡ true → s ≡ t
unfolding str_eq
eq_of_str_eq [] [] h = refl
eq_of_str_eq (a ∷ s) (b ∷ t) h = ground (arith, eq_of_str_eq s t)
eq_of_str_eq _ _ h = ground arith

pub str_eq_iff : (s t : Str) → (str_eq s t ≡ true) ↔ (s ≡ t)
str_eq_iff s t = (eq_of_str_eq s t, λ e. subst (λ x. str_eq s x ≡ true) e (str_eq_refl s))

-- A string is falsy when it is empty.
abbrev pub truthy : Str → Bool
truthy [] = false
truthy (_ ∷ _) = true

-- `s || t`
abbrev pub or_else : Str → Str → Str
or_else [] t = t
or_else (c ∷ s) t = c ∷ s

-- White space and line terminators, as `trim` reads them.
unfoldable pub is_space : ℕ → Bool
is_space c =
    (leb 9 c && leb c 13)
    || (c == 32
        || (c == 160
            || (c == 0x1680
                || ((leb 0x2000 c && leb c 0x200a)
                    || (c == 0x2028
                        || (c == 0x2029
                            || (c == 0x202f || (c == 0x205f || (c == 0x3000 || c == 0xfeff)))))))))

unfoldable pub trim_start : Str → Str
trim_start [] = []
trim_start (c ∷ s) = if is_space c then trim_start s else c ∷ s

-- `c` followed by a string that is already trimmed at its end
abbrev cons_trimmed : ℕ → Str → Str
cons_trimmed c [] = if is_space c then [] else c ∷ []
cons_trimmed c (d ∷ r) = c ∷ d ∷ r

unfoldable trim_end : Str → Str
trim_end [] = []
trim_end (c ∷ s) = cons_trimmed c (trim_end s)

unfoldable pub trim : Str → Str
unfolding trim_start trim_end is_space
trim s = trim_end (trim_start s)

unfoldable pub starts_with : Str → Str → Bool
starts_with [] s = true
starts_with (a ∷ p) [] = false
starts_with (a ∷ p) (b ∷ s) = a == b && starts_with p s

-- `s.indexOf(p)`, with `none` for -1
unfoldable pub index_of : Str → Str → Option ℕ
unfolding starts_with
index_of p [] = if starts_with p [] then some 0 else none
index_of p (c ∷ s) = elim (starts_with p (c ∷ s)) [
  | true ↦ some 0
  | false ↦ elim (index_of p s) [ none ↦ none | some i ↦ some (suc i) ]
]

abbrev is_some {ℓ} : {A : Type ℓ} → Option A → Bool
is_some none = false
is_some (some _) = true

-- `s.includes(p)`
unfoldable pub includes : Str → Str → Bool
unfolding index_of
includes p s = is_some (index_of p s)

-- `s.substring(a, b)`: the bounds are put in order, and clamped to the length.
unfoldable pub substring : Str → ℕ → ℕ → Str
substring s a b = take (max a b - min a b) (drop (min a b) s)

-- `s.replace(p, '')`: the first occurrence goes.
unfoldable pub remove_first : Str → Str → Str
unfolding index_of
remove_first p s = elim (index_of p s) [ none ↦ s | some i ↦ take i s ++ drop (i + length p) s ]

abbrev cons_head : ℕ → List Str → List Str
cons_head c [] = (c ∷ []) ∷ []
cons_head c (l ∷ ls) = (c ∷ l) ∷ ls

-- `s.split(sep)` at each unit that passes the test; the result is never empty.
unfoldable pub split : (ℕ → Bool) → Str → List Str
split sep [] = [] ∷ []
split sep (c ∷ s) = if sep c then [] ∷ split sep s else cons_head c (split sep s)

-- `toLowerCase` on ASCII
unfoldable pub to_lower : Str → Str
to_lower = map λ c. if leb 65 c && leb c 90 then c + 32 else c

-- `parts.join(sep)`
unfoldable pub join : Str → List Str → Str
join sep [] = []
join sep (s ∷ []) = s
join sep (s ∷ t ∷ r) = s ++ (sep ++ join sep (t ∷ r))

-- What follows the prefix `p`, if the text starts with it.
unfoldable pub strip_prefix : Str → Str → Option Str
strip_prefix [] s = some s
strip_prefix (a ∷ p) [] = none
strip_prefix (a ∷ p) (b ∷ s) = if a == b then strip_prefix p s else none
