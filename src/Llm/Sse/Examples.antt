-- ===== src/Llm/Sse/Examples.antt =====
-- Tests of loop/src/llm/client.rs, and the theorems at a concrete body.
use overacp.Llm.Retry.{StreamError}
use overacp.Llm.Sse.Emitted.{IsHonest, process_stream-IsHonest}
use overacp.Llm.Sse.Fuel.{Loops, read_chunk-Loops}
use overacp.Llm.Sse.{
  Reader, StreamEvent, on_line, process_stream, read_chunk, read_lines, split_line, with_choice,
  with_choices, with_event,
}
use overacp.Prelude.Result.{Result, ok}
use overacp.Prelude.{
  List, Option, String, [], false, if◌then◌else◌, nat_eq, none, refl, some, string_eq, ◌==◌, ◌∷◌,
  ◌≡◌,
}

abbrev text_event : String → StreamEvent Unit
text_event s = record {
  choices =
      record { delta = some (record { content = some s; deltas = none }); finish_reason = none }
      ∷ [];
  usage = none;
}

-- The data of a line stands for its event; lines carry no blanks at their ends.
abbrev parse : String → Option (StreamEvent Unit)
parse s = if s == "x" then none else some (text_event s)

abbrev as_is : String → String
as_is s = s

abbrev start : Reader Unit
start = record {
  content = "";
  calls = [];
  finish_reason = none;
  usage = none;
  buffer = "";
  emitted = false;
  shown = [];
}

start-IsHonest : IsHonest start
start-IsHonest = record { content = refl; silent = λ e. (refl, refl) }

-- An event in two chunks, a comment, an unreadable event, and the end mark.
abbrev body : List (Result StreamError String)
body = ok ": hi\ndata: he" ∷ ok "llo\ndata: x\n\ndata: [DONE]\n" ∷ []

read_body : (process_stream as_is parse body start).0.shown ≡ "hello" ∷ []
unfolding process_stream read_chunk read_lines split_line on_line with_event with_choices
    with_choice
read_body = refl

process_stream-IsHonest_example : IsHonest (process_stream as_is parse body start).0
process_stream-IsHonest_example = process_stream-IsHonest as_is parse body start start-IsHonest

abbrev two_lines : Reader Unit
two_lines = record {
  content = "";
  calls = [];
  finish_reason = none;
  usage = none;
  buffer = "data: a\n\n";
  emitted = false;
  shown = [];
}

read_chunk-Loops_example :
    Loops as_is parse
      (record two_lines { buffer = "data: a\n\ndata: b\n" })
      (read_chunk as_is parse "data: b\n" two_lines)
read_chunk-Loops_example = read_chunk-Loops as_is parse "data: b\n" two_lines
