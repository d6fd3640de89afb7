-- ===== src/ChatHelper/Gpt/Total.antt =====
-- The fuel of the loop of `parseGenerationGpt`, and the channels of its map.
use Prim.Native.Nat.{zero, suc, ◌<◌, ◌≤◌}
use swarm_engine.Prelude.{
  ℕ, ◌+◌, ◌≡◌, refl, subst, ◌≢◌, inl, inr, Bool, true, false, Option, none, some, [], ◌∷◌, arith,
  if◌then◌else◌, Option-cases, some_inj, length, length-drop,
}
use swarm_engine.Text.{str_eq, str_eq_iff, codes, Str, index_of, strip_prefix, trim}
use swarm_engine.ChatHelper.Gpt.{
  lookup, GptGenerationMap, channel_tag, message_tag, end_tag, span_name, cut_body, span_body,
  Match, match_message, match_here, insert, exec_all, parse_generation_gpt, initial_map,
}

length-strip_prefix : (p s r : Str) → strip_prefix p s ≡ some r → length r + length p ≡ length s
unfolding strip_prefix
length-strip_prefix [] s r h = ground arith
length-strip_prefix (a ∷ p) [] r h = cc
length-strip_prefix (a ∷ p) (b ∷ s) r h = ground (arith, length-strip_prefix p s r)

length-span_name : (s : Str) → length (span_name s).1 ≤ length s
unfolding span_name
length-span_name [] = omega arith
length-span_name (c ∷ s) = ground (arith, length-span_name s)

length-cut_body : (s : Str) (o : Option ℕ) → length (cut_body s o).1 ≤ length s
length-cut_body s none = omega arith
length-cut_body s (some i) = omega (arith, length-drop (i + 7) s)

length-span_body : (s : Str) → length (span_body s).1 ≤ length s
unfolding span_body
length-span_body s = length-cut_body s (index_of end_tag s)

length-match_message :
    (n : Str) (o : Option Str) (m : Match)
    → match_message n o ≡ some m
    → (s : Str) × (o ≡ some s) × (length m.rest ≤ length s)
unfolding match_message
length-match_message [] o m h = cc
length-match_message (c ∷ n) none m h = cc
length-match_message (c ∷ n) (some s) m h =
    (s, refl, subst (λ (x : Match). length x.rest ≤ length s) (some_inj h) (length-span_body s))

-- A match takes at least its tags off the buffer.
length-match_here : (s : Str) (m : Match) → match_here s ≡ some m → length m.rest < length s
unfolding match_here
length-match_here s m h = elim (Option-cases (strip_prefix channel_tag s)) [
  | inl e ↦ absurd (cc (e, h))
  | inr (r, e) ↦
      let k : match_message (span_name r).0 (strip_prefix message_tag (span_name r).1) ≡ some m =
        rw e at h in
      let (u, f, le) =
        length-match_message (span_name r).0 (strip_prefix message_tag (span_name r).1) m k in
      omega (
        arith,
        length-strip_prefix channel_tag s r e,
        length-strip_prefix message_tag (span_name r).1 u f,
        length-span_name r,
      )
]

-- Fuel beyond the length of the buffer is enough.
exec_all_total :
    (fuel : ℕ) (s : Str) (m : GptGenerationMap)
    → length s < fuel
    → (m' : GptGenerationMap) × (exec_all fuel s m ≡ some m')
unfolding exec_all
exec_all_total zero s m h = absurd (omega arith)
exec_all_total (suc fuel) [] m h = (m, refl)
exec_all_total (suc fuel) (c ∷ s) m h = elim (Option-cases (match_here (c ∷ s))) [
  | inl e ↦ let (m', k) = exec_all_total fuel s m (omega arith) in (m', rw (e, exec_all) k)
  | inr (r, e) ↦
      let (m', k) =
        exec_all_total fuel r.rest (insert r.name (trim r.body) m)
          (omega (arith, length-match_here (c ∷ s) r e)) in
      (m', rw (e, exec_all) k)
]

-- A write sets its own key, and leaves the others.
lookup-insert :
    (k j v : Str) (m : GptGenerationMap)
    → lookup j (insert k v m) ≡ (if str_eq k j then some v else lookup j m)
unfolding lookup insert
lookup-insert k j v [] = refl
lookup-insert k j v ((i, w) ∷ m) =
    ground (arith, str_eq_iff k j, str_eq_iff i k, str_eq_iff i j, lookup-insert k j v m)

-- A key that the object has.
abbrev pub HasKey : Str → GptGenerationMap → Type 0
HasKey k m = lookup k m ≢ none

insert-HasKey : (k j v : Str) (m : GptGenerationMap) → HasKey j m → HasKey j (insert k v m)
insert-HasKey k j v m h = rw (lookup-insert k j v m) (go (str_eq k j))
  where
    go : (b : Bool) → (if b then some v else lookup j m) ≢ none
    go true e = cc
    go false e = h e

exec_all-HasKey :
    (fuel : ℕ) (s j : Str) (m : GptGenerationMap) {m' : GptGenerationMap}
    → exec_all fuel s m ≡ some m'
    → HasKey j m
    → HasKey j m'
unfolding exec_all
exec_all-HasKey zero s j m e h = cc
exec_all-HasKey (suc fuel) [] j m e h = rw (← some_inj e) h
exec_all-HasKey (suc fuel) (c ∷ s) j m e h = elim (Option-cases (match_here (c ∷ s))) [
  | inl n ↦ exec_all-HasKey fuel s j m (rw (n, exec_all) at e) h
  | inr (r, n) ↦
      exec_all-HasKey fuel r.rest j (insert r.name (trim r.body) m) (rw (n, exec_all) at e)
        (insert-HasKey r.name j (trim r.body) m h)
]

initial-analysis : HasKey (codes "analysis") initial_map
unfolding lookup str_eq
initial-analysis = cc

initial-final : HasKey (codes "final") initial_map
unfolding lookup str_eq
initial-final = cc

-- `parseGenerationGpt` terminates on every buffer, and its map has both channels that the callers
-- read.
pub parse_generation_gpt_total :
    (buffer : Str)
    → (m : GptGenerationMap) × (parse_generation_gpt buffer ≡ some m)
      × HasKey (codes "analysis") m
      × HasKey (codes "final") m
unfolding parse_generation_gpt
parse_generation_gpt_total buffer =
    let (m, e) =
      exec_all_total (suc (length (trim buffer))) (trim buffer) initial_map (omega arith) in
    (
      m,
      e,
      exec_all-HasKey (suc (length (trim buffer))) (trim buffer) (codes "analysis") initial_map e
          initial-analysis,
      exec_all-HasKey (suc (length (trim buffer))) (trim buffer) (codes "final") initial_map e
          initial-final,
    )
