-- ===== src/ChatHelper/Gpt/Render.antt =====
-- What a model writes for `parseGenerationGpt`: messages on channels, the last of which may still be
-- streaming.
use Prim.Native.Nat.{zero, suc, ◌<◌, ◌≤◌}
use swarm_engine.Prelude.{
  ℕ, ◌+◌, ◌*◌, ◌≡◌, refl, sym, ap, ap₂, ◌∙◌, ◌≢◌, false, none, some, List, [], ◌∷◌, ◌++◌,
  append_assoc, arith, length, length-append, take-length-append, drop-append_add, last?,
}
use swarm_engine.Text.{Str, codes, index_of, strip_prefix, trim, is_space}
use swarm_engine.Text.Infix.{index_of-grow}
use swarm_engine.Text.Trim.{trim_keep}
use swarm_engine.ChatHelper.Gpt.{
  GptGenerationMap, channel_tag, message_tag, end_tag, span_name, cut_body, span_body,
  match_message, match_name, match_here, insert, exec_all, parse_generation_gpt, initial_map,
}

-- A message on a channel: its name and its body.
pub record ChannelMessage : Type 0 where
  pub name : Str
  pub body : Str

pub data IsName : Str → Type 0 where
  one : (c : ℕ) → c ≢ 60 → IsName (c ∷ [])
  more : (c : ℕ) {s : Str} → c ≢ 60 → IsName s → IsName (c ∷ s)

-- A name has no `<` and is not empty; the first end tag after the body is the message's own.
pub record IsWritable (m : ChannelMessage) : Type 0 where
  pub named : IsName m.name
  pub ended : index_of end_tag (m.body ++ end_tag) ≡ some (length m.body)

abbrev header : Str → Str → Str
header name rest = channel_tag ++ (name ++ (message_tag ++ rest))

-- The text of complete messages, before a rest.
abbrev pub render : List ChannelMessage → Str → Str
render [] rest = rest
render (m ∷ ms) rest = header m.name (m.body ++ (end_tag ++ render ms rest))

-- The map that the messages stand for: each write replaces the earlier one on its channel.
abbrev pub record_all : List ChannelMessage → GptGenerationMap → GptGenerationMap
record_all [] g = g
record_all (m ∷ ms) g = record_all ms (insert m.name (trim m.body) g)

abbrev AllWritable : List ChannelMessage → Type 0
AllWritable [] = Unit
AllWritable (m ∷ ms) = IsWritable m × AllWritable ms

strip_prefix-append : (p s : Str) → strip_prefix p (p ++ s) ≡ some s
unfolding strip_prefix
strip_prefix-append [] s = refl
strip_prefix-append (a ∷ p) s = ground (arith, strip_prefix-append p s)

span_name-append : (n s : Str) → IsName n → span_name (n ++ (60 ∷ s)) ≡ (n, 60 ∷ s)
unfolding span_name
span_name-append _ s (one c h) = ground arith
span_name-append _ s (more c {s = n} h k) = ground (arith, span_name-append n s k)

match_message-name :
    {n : Str} (s : Str)
    → IsName n
    → match_message n (some s)
      ≡ some (record { name = n; body = (span_body s).0; rest = (span_body s).1 })
unfolding match_message
match_message-name s (one c h) = refl
match_message-name s (more c h k) = refl

-- A header at the front of the buffer is matched.
match_here-header :
    (n s : Str)
    → IsName n
    → match_here (header n s)
      ≡ some (record { name = n; body = (span_body s).0; rest = (span_body s).1 })
unfolding match_here match_name
match_here-header n s h =
    ap match_name (strip_prefix-append channel_tag (n ++ (message_tag ++ s)))
    ∙ ap (λ (x : Str × Str). match_message x.0 (strip_prefix message_tag x.1))
        (span_name-append n (codes "|message|>" ++ s) h)
    ∙ ap (match_message n) (strip_prefix-append message_tag s)
    ∙ match_message-name s h

span_body-ended :
    (b s : Str)
    → index_of end_tag (b ++ end_tag) ≡ some (length b)
    → span_body (b ++ (end_tag ++ s)) ≡ (b, s)
unfolding span_body
span_body-ended b s h =
    ap (cut_body (b ++ (end_tag ++ s))) (
      ap (index_of end_tag) (sym (append_assoc b end_tag s))
      ∙ index_of-grow end_tag (b ++ end_tag) s (length b) h)
    ∙ ap₂ (λ (x y : Str). (x, y)) (take-length-append b (end_tag ++ s))
        (drop-append_add b (end_tag ++ s) 7)

-- A written message at the front of the buffer is read back, and the rest is left.
match_here-message :
    (m : ChannelMessage) (s : Str)
    → IsWritable m
    → match_here (header m.name (m.body ++ (end_tag ++ s)))
      ≡ some (record { name = m.name; body = m.body; rest = s })
match_here-message m s w =
    match_here-header m.name (m.body ++ (end_tag ++ s)) w.named
    ∙ ap (λ (x : Str × Str). some (record { name = m.name; body = x.0; rest = x.1 }))
        (span_body-ended m.body s w.ended)

exec_all-message :
    (fuel : ℕ) (m : ChannelMessage) (s : Str) (g : GptGenerationMap)
    → IsWritable m
    → exec_all (suc fuel) (header m.name (m.body ++ (end_tag ++ s))) g
      ≡ exec_all fuel s (insert m.name (trim m.body) g)
unfolding exec_all
exec_all-message fuel m s g w = rw (match_here-message m s w, exec_all)

-- What the messages are followed by: nothing, or a message that is still streaming.
pub data Tail : Type 0 where
  closed : Tail
  streaming : ChannelMessage → Tail

abbrev pub text_of : Tail → Str
text_of closed = []
text_of (streaming m) = header m.name m.body

abbrev IsStreamable : Tail → Type 0
IsStreamable closed = Unit
IsStreamable (streaming m) = IsName m.name × (index_of end_tag m.body ≡ none)

abbrev pub record_tail : Tail → GptGenerationMap → GptGenerationMap
record_tail closed g = g
record_tail (streaming m) g = insert m.name (trim m.body) g

span_body-streaming : (b : Str) → index_of end_tag b ≡ none → span_body b ≡ (b, [])
unfolding span_body
span_body-streaming b h = ap (cut_body b) h

match_here-streaming :
    (m : ChannelMessage)
    → IsName m.name
    → index_of end_tag m.body ≡ none
    → match_here (header m.name m.body) ≡ some (record { name = m.name; body = m.body; rest = [] })
match_here-streaming m n h =
    match_here-header m.name m.body n
    ∙ ap (λ (x : Str × Str). some (record { name = m.name; body = x.0; rest = x.1 }))
        (span_body-streaming m.body h)

exec_all-tail :
    (fuel : ℕ) (t : Tail) (g : GptGenerationMap)
    → IsStreamable t
    → exec_all (suc (suc fuel)) (text_of t) g ≡ some (record_tail t g)
unfolding exec_all
exec_all-tail fuel closed g h = refl
exec_all-tail fuel (streaming m) g h = rw (match_here-streaming m h.0 h.1, exec_all)

exec_all-render :
    (fuel : ℕ) (ms : List ChannelMessage) (t : Tail) (g : GptGenerationMap)
    → AllWritable ms
    → IsStreamable t
    → length ms + 1 < fuel
    → exec_all fuel (render ms (text_of t)) g ≡ some (record_tail t (record_all ms g))
exec_all-render zero ms t g w h lt = absurd (omega arith)
exec_all-render (suc zero) ms t g w h lt = absurd (omega arith)
exec_all-render (suc (suc fuel)) [] t g w h lt = exec_all-tail fuel t g h
exec_all-render (suc (suc fuel)) (m ∷ ms) t g w h lt =
    exec_all-message (suc fuel) m (render ms (text_of t)) g w.0
    ∙ exec_all-render (suc fuel) ms t (insert m.name (trim m.body) g) w.1 h (omega arith)

length-render :
    (ms : List ChannelMessage) (r : Str) → length ms * 11 + length r ≤ length (render ms r)
length-render [] r = omega arith
length-render (m ∷ ms) r = omega (
  arith,
  length-append m.name (message_tag ++ (m.body ++ (end_tag ++ render ms r))),
  length-append m.body (end_tag ++ render ms r),
  length-render ms r,
)

open_tag : is_space 60 ≡ false
unfolding is_space
open_tag = refl

written : (ms : List ChannelMessage) (t : Tail) → Str
written ms t = render ms (text_of t)

parsed :
    (ms : List ChannelMessage) (t : Tail) (b : Str)
    → AllWritable ms
    → IsStreamable t
    → trim b ≡ b
    → b ≡ written ms t
    → length ms < length b
    → parse_generation_gpt b ≡ some (record_tail t (record_all ms initial_map))
unfolding parse_generation_gpt written
parsed ms t b w h k e lt =
    ap (λ x. exec_all (suc (length x)) x initial_map) k
    ∙ ap (λ x. exec_all (suc (length b)) x initial_map) e
    ∙ exec_all-render (suc (length b)) ms t initial_map w h (omega arith)

-- `parseGenerationGpt` reads back a raw output: complete messages, then possibly one that is still
-- streaming. Each channel gets the trimmed body of its last message. The output does not end in
-- white space, names have no `<`, and the first end tag after a body is the message's own.
pub parse_generation_gpt-render :
    (ms : List ChannelMessage) (t : Tail) (z : ℕ)
    → AllWritable ms
    → IsStreamable t
    → last? (render ms (text_of t)) ≡ some z
    → is_space z ≡ false
    → parse_generation_gpt (render ms (text_of t))
      ≡ some (record_tail t (record_all ms initial_map))
parse_generation_gpt-render [] closed z w h l e = cc
parse_generation_gpt-render [] (streaming m) z w h l e =
    parsed [] (streaming m) (header m.name m.body) w h
      (trim_keep 60 z (codes "|channel|>" ++ (m.name ++ (message_tag ++ m.body))) open_tag l e)
      (unfold written in refl) (omega arith)
parse_generation_gpt-render (m ∷ ms) t z w h l e =
    parsed (m ∷ ms) t (render (m ∷ ms) (text_of t)) w h
      (trim_keep 60 z
        (codes "|channel|>"
          ++ (m.name ++ (message_tag ++ (m.body ++ (end_tag ++ render ms (text_of t))))))
        open_tag l e)
      (unfold written in refl) (omega (arith, length-render (m ∷ ms) (text_of t)))
