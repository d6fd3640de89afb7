-- ===== src/Examples/Parsers.antt =====
-- The parsers of a model's raw output at concrete texts.
use swarm_engine.Prelude.{◌≡◌, refl, false, some, [], ◌∷◌, arith}
use swarm_engine.Text.{Str, codes, index_of, includes, trim, is_space}
use swarm_engine.LineBuffer.{feed, feed_all, feed_all-eq-feed}
use swarm_engine.Json.{Json, null, num, arr, obj, nil, cons, end, entry, strip}
use swarm_engine.Json.Nulls.{NoNulls, strip-NoNulls}
use swarm_engine.ChatHelper.Qwen.{
  QwenGenerationMap, parse_generation_qwen, think_tag_open, strip_thinks,
}
use swarm_engine.ChatHelper.Qwen.Loop.{parse_generation_qwen_total}
use swarm_engine.ChatHelper.Qwen.Spans.{
  strip_thinks-eq-cut_thinks, cut_thinks, described, parse_generation_qwen-thought, thought,
}
use swarm_engine.ChatHelper.Gpt.{GptGenerationMap, parse_generation_gpt, initial_map}
use swarm_engine.ChatHelper.Gpt.Total.{parse_generation_gpt_total, HasKey}
use swarm_engine.ChatHelper.Gpt.Render.{
  ChannelMessage, IsName, one, IsWritable, render, record_all, record_tail, streaming, text_of,
  parse_generation_gpt-render,
}

abbrev raw_output : Str
raw_output = codes "<think>hm</think>Hi"

parse_generation_qwen_total_example :
    (m : QwenGenerationMap) × (parse_generation_qwen raw_output ≡ some m)
    × (includes think_tag_open m.content ≡ false)
parse_generation_qwen_total_example = parse_generation_qwen_total raw_output

strip_thinks-eq-cut_thinks_example :
    strip_thinks 20 raw_output [] ≡ described [] (cut_thinks 20 raw_output)
strip_thinks-eq-cut_thinks_example = strip_thinks-eq-cut_thinks 20 raw_output []

parse_generation_qwen-thought_example :
    parse_generation_qwen (thought (codes "hm") (codes "Hi"))
    ≡ some (record { think = trim (codes "hm"); content = trim (codes "Hi") })
unfolding index_of is_space
parse_generation_qwen-thought_example =
    parse_generation_qwen-thought (codes "hm") (codes "Hi") 105 refl refl refl refl

parse_generation_gpt_total_example :
    (m : GptGenerationMap) × (parse_generation_gpt raw_output ≡ some m)
    × HasKey (codes "analysis") m
    × HasKey (codes "final") m
parse_generation_gpt_total_example = parse_generation_gpt_total raw_output

abbrev answer : ChannelMessage
answer = record { name = codes "f"; body = codes "Hi" }

answer-IsName : IsName (codes "f")
answer-IsName = one 102 (omega arith)

answer-IsWritable : IsWritable answer
unfolding index_of
answer-IsWritable = record { named = answer-IsName; ended = refl }

parse_generation_gpt-render_example :
    parse_generation_gpt (render (answer ∷ []) (text_of (streaming answer)))
    ≡ some (record_tail (streaming answer) (record_all (answer ∷ []) initial_map))
unfolding index_of is_space
parse_generation_gpt-render_example =
    parse_generation_gpt-render (answer ∷ []) (streaming answer) 105 (answer-IsWritable, tt)
      (answer-IsName, refl) refl refl

feed_all-eq-feed_example : feed_all [] (codes "a" ∷ codes "b\nc" ∷ []) ≡ feed [] (codes "ab\nc")
feed_all-eq-feed_example = feed_all-eq-feed (codes "a" ∷ codes "b\nc" ∷ [])

abbrev some_json : Json
some_json =
    obj (entry (codes "a") null (entry (codes "b") (arr (cons null (cons (num 1) nil))) end))

strip-NoNulls_example : NoNulls (strip some_json) × (strip (strip some_json) ≡ strip some_json)
strip-NoNulls_example = strip-NoNulls some_json

parse_closed :
    parse_generation_qwen (codes "<think>a b</think> hi <think> c")
    ≡ some (record { think = codes "a b\n\n c"; content = codes "hi" })
unfolding parse_generation_qwen
parse_closed = refl

parse_streamed :
    parse_generation_gpt (
      codes
        "<|channel|>analysis<|message|> so <|end|><|start|>assistant<|channel|>final<|message|>Hi")
    ≡ some ((codes "analysis", codes "so") ∷ (codes "final", codes "Hi") ∷ [])
unfolding parse_generation_gpt
parse_streamed = refl
