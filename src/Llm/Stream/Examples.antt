-- ===== src/Llm/Stream/Examples.antt =====
-- Tests of loop/src/llm/client.rs, and the theorems at a concrete stream.
use overacp.Llm.Stream.Calls.{arguments-accumulate_all, arguments_of, call_at}
use overacp.Llm.Stream.{
  ToolCallDelta, accumulate_all, accumulate_tool_call, apply_delta, pad, usage_of,
}
use overacp.Prelude.{List, Option, String, [], none, refl, some, ℕ, ◌∷◌, ◌≡◌}

abbrev piece : ℕ → Option String → String → ToolCallDelta
piece i n a = record {
  index = i;
  id = none;
  function = some (record { name = n; arguments = some a });
}

-- The pieces of two calls, the second call's first.
abbrev pieces : List ToolCallDelta
pieces =
    piece 1 (some "read") "{\"p\":"
    ∷ piece 0 (some "ls") "{"
    ∷ piece 1 none "1}"
    ∷ piece 0 none "}"
    ∷ []

put_together :
    accumulate_all [] pieces
    ≡ record { id = ""; name = "ls"; arguments = "{}" }
      ∷ record { id = ""; name = "read"; arguments = "{\"p\":1}" }
      ∷ []
unfolding accumulate_all accumulate_tool_call pad apply_delta
put_together = refl

arguments-accumulate_all_example :
    (call_at 1 (accumulate_all [] pieces)).arguments ≡ arguments_of 1 "" pieces
arguments-accumulate_all_example = arguments-accumulate_all 1 pieces

-- `usage_deser_both_shapes_picks_max`
both_shapes :
    (usage_of (record {
      prompt_tokens = 10;
      completion_tokens = 2;
      total_tokens = 12;
      cost = tt;
      cache_read_input_tokens = 3;
      cache_creation_input_tokens = 0;
      prompt_tokens_details = some 7;
    })).cache_read_tokens
    ≡ 7
unfolding usage_of
both_shapes = refl
