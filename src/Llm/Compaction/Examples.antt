-- ===== src/Llm/Compaction/Examples.antt =====
-- Tests of loop/src/compaction.rs, and the theorems at a concrete conversation.
use overacp.Llm.Compaction.Pairs.{answers_all}
use overacp.Llm.Compaction.Results.{compact_messages_paired}
use overacp.Llm.Compaction.{
  CompactionResult, CompletionResponse, compact_messages, compacted, context_message,
  find_safe_split, has_straddling_pair, insert_calls, pending, plain_message, remove_id,
  response_text, summarize, summary_messages, system_message, walk_back,
}
use overacp.Llm.Types.{Message, ToolCall, as_text, assistant, plain, system, tool, user}
use overacp.Prelude.Result.{Result, ok}
use overacp.Prelude.{List, String, [], drop, none, refl, some, true, ◌∷◌, ◌≡◌}

abbrev call_of : String → ToolCall
call_of i = record {
  id = i;
  call_type = "function";
  function = record { name = "ls"; arguments = "{}" };
}

abbrev calling : List ToolCall → Message
calling calls = record {
  role = assistant;
  content = none;
  tool_calls = some calls;
  tool_call_id = none;
}

abbrev responding : String → Message
responding i = record {
  role = tool;
  content = some (plain "ok");
  tool_calls = none;
  tool_call_id = some i;
}

-- A call and its response stand on both sides of the split that five recent messages propose.
abbrev history : List Message
history =
    plain_message system "be brief"
    ∷ plain_message user "look"
    ∷ plain_message assistant "I do"
    ∷ plain_message user "please"
    ∷ calling (call_of "c1" ∷ call_of "c2" ∷ [])
    ∷ responding "c1"
    ∷ responding "c2"
    ∷ plain_message assistant "done"
    ∷ plain_message user "thanks"
    ∷ []

abbrev model : List Message → Result String CompletionResponse
model messages =
    ok (record { choices = record { message = some (plain_message assistant "they looked") } ∷ [] })

-- Four recent messages propose the split 5, between the calls and their responses.
split_moved : find_safe_split history 1 5 ≡ 4
unfolding find_safe_split walk_back has_straddling_pair pending insert_calls remove_id
split_moved = refl

abbrev result : CompactionResult
result = record {
  working_messages =
      plain_message system "be brief"
      ∷ plain_message system "<compacted_context>\nthey looked\n</compacted_context>"
      ∷ drop 4 history;
  canonical_messages = drop 4 history;
  summary = "they looked";
}

compacted_history : compact_messages model history 4 ≡ ok result
unfolding compact_messages compacted summarize system_message context_message find_safe_split
    walk_back has_straddling_pair pending insert_calls remove_id response_text summary_messages
    as_text
compacted_history = refl

-- `short_history_is_unchanged`
short :
    compact_messages model history 7
    ≡ ok (record { working_messages = history; canonical_messages = history; summary = "" })
unfolding compact_messages
short = refl

compact_messages_paired_example :
    (answers_all [] result.canonical_messages ≡ true)
    × (answers_all [] result.working_messages ≡ true)
unfolding answers_all remove_id insert_calls
compact_messages_paired_example =
    compact_messages_paired model history 4 result refl compacted_history
