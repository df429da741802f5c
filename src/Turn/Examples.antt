-- ===== src/Turn/Examples.antt =====
-- Tests of loop/src/agentic_loop.rs, and the theorems at a concrete turn.
use overacp.Acp.Pushes.{NextPush, pushed_cancel, pushed_message}
use overacp.Json.{
  Value, array, as_array, as_str, element, get_key, member, no_element, no_member, null, object,
  string,
}
use overacp.Llm.Compaction.Pairs.{answers_all}
use overacp.Llm.Compaction.{estimate_tokens, pending, plain_message, response_text, summarize}
use overacp.Llm.Resolve.{Files, mime_from_extension, resolve_content_block, resolve_file_url}
use overacp.Llm.Sse.{StreamedResponse, by_stop}
use overacp.Llm.Types.{
  Message, ToolCall, as_text, assistant, estimate_content, image_url, join, plain, text, user,
}
use overacp.Prelude.Names.{distinct}
use overacp.Prelude.Result.{Result, err, is_ok, ok}
use overacp.Prelude.{
  List, Option, String, [], arith, if◌then◌else◌, ltb, nat_eq, none, refl, some, string_eq, subst,
  suc, true, zero, ℕ, ◌+◌, ◌==◌, ◌∷◌, ◌≡◌,
}
use overacp.Turn.Across.{EndsPaired, PlainPush, outer_loop-EndsPaired}
use overacp.Turn.Calls.{
  announce, handle_arguments, handle_call, handle_calls, result_content, run_tool, tool_message,
}
use overacp.Turn.Limits.{Works, run-ends_turn}
use overacp.Turn.Order.{run-bracketed, turn, turn_end_once}
use overacp.Turn.Outer.{Session, outer_loop}
use overacp.Turn.Outputs.{
  arguments_error, element_texts, extract_acp_tool_result, parse_tool_arguments,
  tool_output_to_content, truncation_tip,
}
use overacp.Turn.Pairing.{AnswersWell, Paired, ids_called}
use overacp.Turn.Recorded.{
  TurnEvent, activity_sent, bracketed, call_announced, ends_turn, logging, quota_asked, result_sent,
  text_sent, tool_asked, turn_ended, turn_ends,
}
use overacp.Turn.Run.{
  call_model, check_compaction, check_heartbeat, check_quota, check_timeout, continue_with,
  handle_answer, iterate, nudge, run, run_loop, send_deltas, start, track_silence, wind_down,
}
use overacp.Turn.Turns.{run-Paired}
use overacp.Turn.{
  AcpService, Codec, LoopConfig, LoopError, LoopState, Round, Tools, and_then, panicked,
}

-- A service whose state counts its calls. Heartbeats fail, the operator has one tool.
abbrev done_by : {A : Type 0} → A → ℕ → Result String A × ℕ
done_by a n = (ok a, suc n)

abbrev tool_value : Value
tool_value = object (
    member "content"
      (array (
        element (object (member "type" (string "text") (member "text" (string "a file") no_member)))
          no_element))
      no_member)

abbrev counting : AcpService ℕ ℕ
counting = record {
  stream_text_delta = λ t. done_by tt;
  stream_activity = λ t. done_by tt;
  stream_tool_call = λ i name v. done_by tt;
  stream_tool_result = λ i v b. done_by tt;
  turn_end = λ ms u. done_by tt;
  context_compacted = λ t ms u. done_by tt;
  quota_check = done_by true;
  quota_update = λ a b. done_by tt;
  heartbeat = λ n. (err "closed", suc n);
  tools_call = λ name v. done_by tool_value;
}

abbrev pub one_tool : Tools Unit
one_tool = record {
  definitions = λ r. [];
  is_acp_tool = λ name r. name == "ls";
  execute = λ name v r. (err "unknown tool", r);
}

abbrev pub small_codec : Codec
small_codec = record {
  parse = λ s.
      if s == "{}" then ok (object no_member) else err (record { is_eof = true; shown = "eof" });
  print = λ v. "value";
  content_value = λ c. null;
  of_nat = λ n. "n";
}

abbrev pub small_config : LoopConfig
small_config = record {
  max_iterations = 3;
  timeout = 1000;
  context_window = 125;
  over_threshold = λ n. ltb 100 n;
  compaction_keep_recent = 4;
  max_compactions = 1;
}

abbrev call_of : String → String → String → ToolCall
call_of i name args = record {
  id = i;
  call_type = "function";
  function = record { name = name; arguments = args };
}

abbrev says : Option (List ToolCall) → Result String (StreamedResponse ℕ)
says calls = ok (record {
  message = record {
    role = assistant;
    content = some (plain "yes");
    tool_calls = calls;
    tool_call_id = none;
  };
  finish_reason = some by_stop;
  usage = none;
})

-- Two calls at first, one of them with arguments that were cut off, then the final answer.
abbrev answers_in : ℕ → Result String (StreamedResponse ℕ)
answers_in zero = says none
answers_in (suc zero) = says none
answers_in (suc (suc zero)) = says none
answers_in (suc (suc (suc n))) =
    says (some (call_of "c1" "ls" "{}" ∷ call_of "c2" "write" "{" ∷ []))

abbrev pub small_rounds : ℕ → Round ℕ
small_rounds n = record {
  elapsed = 10;
  beat = 10;
  complete = λ ms.
      ok (record { choices = record { message = some (plain_message assistant "short") } ∷ [] });
  stream_completion = λ ms tools. ("yes" ∷ "" ∷ [], answers_in n);
}

abbrev pub asked : List Message
asked = plain_message user "what is here?" ∷ []

abbrev small_turn : Result LoopError Unit × LoopState (ℕ × List TurnEvent) Unit ℕ
small_turn = turn counting one_tool small_codec ◌+◌ small_config small_rounds 0 0 tt asked

-- The events of the turn, the last one first.
turn_events :
    small_turn.1.acp.1
    ≡ turn_ended
      ∷ text_sent
      ∷ quota_asked
      ∷ result_sent "c2"
      ∷ call_announced "c2"
      ∷ activity_sent
      ∷ result_sent "c1"
      ∷ tool_asked "ls"
      ∷ call_announced "c1"
      ∷ activity_sent
      ∷ text_sent
      ∷ quota_asked
      ∷ []
unfolding run run_loop continue_with iterate and_then check_timeout check_quota logging
    check_compaction estimate_tokens check_heartbeat start estimate_content call_model handle_answer
    handle_calls handle_call announce handle_arguments result_content run_tool tool_message
    parse_tool_arguments nudge send_deltas track_silence wind_down extract_acp_tool_result join
    get_key as_array element_texts as_str tool_output_to_content arguments_error truncation_tip
turn_events = refl

-- With a context window of 0 the log divides by it.
abbrev no_window : LoopConfig
no_window = record small_config { context_window = 0; over_threshold = λ n. ltb 0 n }

divides_by_zero :
    (turn counting one_tool small_codec ◌+◌ no_window small_rounds 0 0 tt asked).0 ≡ err panicked
unfolding run run_loop continue_with iterate and_then check_timeout check_quota logging
    check_compaction estimate_tokens check_heartbeat start estimate_content
divides_by_zero = refl

turn_end_once_example :
    (turn_ends (small_turn.1.acp.1) ≡ (if is_ok (small_turn.0) then 1 else 0))
    × (ends_turn (small_turn.1.acp.1) ≡ is_ok (small_turn.0))
turn_end_once_example =
    turn_end_once counting one_tool small_codec ◌+◌ small_config small_rounds 0 0 tt asked

run-bracketed_example : bracketed (small_turn.1.acp.1) ≡ true
run-bracketed_example =
    run-bracketed counting one_tool small_codec ◌+◌ small_config small_rounds 0 0 tt asked

small_works : Works counting one_tool small_codec ◌+◌ small_config small_rounds
unfolding summarize response_text as_text
small_works = record {
  has_window = omega arith;
  texts_sent = λ t s. refl;
  summaries_made = λ n ms. refl;
}

run-ends_turn_example :
    (is_ok (small_turn.0) ≡ true)
    × (turn_ends (small_turn.1.acp.1) ≡ 1)
    × (ends_turn (small_turn.1.acp.1) ≡ true)
run-ends_turn_example =
    run-ends_turn counting one_tool small_codec ◌+◌ small_config small_rounds 0 0 tt asked
      small_works

abbrev GoodAnswer : Result String (StreamedResponse ℕ) → Type 0
GoodAnswer (err e) = Unit
GoodAnswer (ok streamed) =
    (streamed.message.role ≡ assistant) × (distinct (ids_called streamed.message.tool_calls) ≡ true)

answers_in-GoodAnswer : (n : ℕ) → GoodAnswer (answers_in n)
unfolding distinct
answers_in-GoodAnswer zero = (refl, refl)
answers_in-GoodAnswer (suc zero) = (refl, refl)
answers_in-GoodAnswer (suc (suc zero)) = (refl, refl)
answers_in-GoodAnswer (suc (suc (suc n))) = (refl, refl)

small_rounds-AnswersWell : (n : ℕ) → AnswersWell (small_rounds n)
small_rounds-AnswersWell n ms tools streamed e = subst GoodAnswer e (answers_in-GoodAnswer n)

asked-Paired : Paired asked
unfolding answers_all pending
asked-Paired = (refl, refl)

run-Paired_example :
    Paired
      ((run counting one_tool small_codec ◌+◌ small_config 0 small_rounds 0 tt asked).1.messages)
run-Paired_example =
    run-Paired counting one_tool small_codec ◌+◌ small_config small_rounds 0 0 tt asked
      small_rounds-AnswersWell asked-Paired

abbrev no_files : Files
no_files = record { extension = λ path. some "png"; read_encoded = λ path. err "no such file" }

-- A message comes first, and then the cancellation.
abbrev pushes : ℕ → Result String NextPush × ℕ
pushes zero = (ok (pushed_message (plain_message user "go on")), 1)
pushes (suc n) = (ok pushed_cancel, suc n)

abbrev small_turns : List (ℕ → Round ℕ)
small_turns = small_rounds ∷ small_rounds ∷ []

abbrev at_start : Session ℕ Unit
at_start = record { acp = 0; tools = tt; history = [] }

pushes-PlainPush : (n : ℕ) → PlainPush ((pushes n).0)
pushes-PlainPush zero = (refl, refl)
pushes-PlainPush (suc n) = tt

nothing-Paired : Paired []
unfolding answers_all pending
nothing-Paired = (refl, refl)

outer_loop-EndsPaired_example :
    EndsPaired counting pushes one_tool small_codec ◌+◌ 0 small_config no_files (
      outer_loop counting pushes one_tool small_codec ◌+◌ 0 small_config no_files small_turns
        at_start)
outer_loop-EndsPaired_example =
    outer_loop-EndsPaired counting pushes one_tool small_codec ◌+◌ 0 small_config no_files
      small_turns at_start (small_rounds-AnswersWell, (small_rounds-AnswersWell, tt))
      pushes-PlainPush nothing-Paired

-- An image that cannot be read becomes a text.
missing_image :
    resolve_content_block no_files
      (image_url (object (member "url" (string "file:///a.png") no_member)))
    ≡ text "[Image not available: /a.png: no such file]"
unfolding resolve_content_block resolve_file_url mime_from_extension get_key as_str
missing_image = refl
