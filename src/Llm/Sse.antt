-- ===== src/Llm/Sse.antt =====
-- loop/src/llm/client.rs: `process_stream`, which reads the lines of a streamed response. Chunks are
-- texts, as `from_utf8_lossy` gives them; `trim` and `from_str` are those of `str` and `serde_json`.
pub mod Emitted
pub mod Fuel
pub mod Examples
use Prim.Native.Char.{code}
use Prim.Native.String.{String}
use text.Mathlib.Text.{starts_with}
use overacp.Llm.Retry.{StreamError}
use overacp.Llm.Stream.{PartialToolCall, ToolCallDelta, Usage, accumulate_all, final_tool_calls}
use overacp.Llm.Types.{Content, Message, assistant, plain}
use overacp.Prelude.Result.{Result, err, ok}
use overacp.Prelude.Texts.{chars, push_str, strip_prefix}
use overacp.Prelude.{
  Bool, List, Option, [], false, if◌then◌else◌, nat_beq, nat_eq, none, some, string_eq, suc, true,
  zero, ℕ, ◌++◌, ◌==◌, ◌||◌, ◌∷◌,
}

pub data StopReason : Type 0 where
  by_stop by_tool_calls by_length by_content_filter : StopReason

pub record Delta : Type 0 where
  pub content : Option String
  pub deltas : Option (List ToolCallDelta)

-- `Choice`, by the parts that are read here.
pub record StreamChoice : Type 0 where
  pub delta : Option Delta
  pub finish_reason : Option StopReason

pub record StreamEvent (Cost : Type 0) : Type 0 where
  pub choices : List StreamChoice
  pub usage : Option (Usage Cost)

-- The variables of the function, with `emitted` and the texts that `on_text` was given.
pub record Reader (Cost : Type 0) : Type 0 where
  pub content : String
  pub calls : List PartialToolCall
  pub finish_reason : Option StopReason
  pub usage : Option (Usage Cost)
  pub buffer : String
  pub emitted : Bool
  pub shown : List String

pub record StreamedResponse (Cost : Type 0) : Type 0 where
  pub message : Message
  pub finish_reason : Option StopReason
  pub usage : Option (Usage Cost)

abbrev or_keep {ℓ} : {A : Type ℓ} → Option A → Option A → Option A
or_keep none old = old
or_keep (some a) old = some a

-- `buffer.find('\n')`, with the texts on both sides of it.
unfoldable pub split_line : String → Option (String × String)
split_line String.[] = none
split_line (String.◌∷◌ c s) =
    let rest = split_line s in
    if nat_beq (code c) 10
    then some (String.[], s)
    else elim rest [ none ↦ none | some (line, after) ↦ some (String.◌∷◌ c line, after) ]

abbrev pub text_content : String → Option Content
text_content s = if s == "" then none else some (plain s)

module _ {Cost : Type 0} where
  abbrev pub emit_text : Option String → Reader Cost → Reader Cost
  emit_text none r = r
  emit_text (some t) r = record r {
    content = push_str r.content t;
    emitted = true;
    shown = r.shown ++ t ∷ [];
  }

  abbrev pub emit_calls : Option (List ToolCallDelta) → Reader Cost → Reader Cost
  emit_calls none r = r
  emit_calls (some deltas) r = record r { calls = accumulate_all r.calls deltas; emitted = true }

  abbrev pub with_delta : Option Delta → Reader Cost → Reader Cost
  with_delta none r = r
  with_delta (some d) r = emit_calls d.deltas (emit_text d.content r)

  unfoldable pub with_choice : StreamChoice → Reader Cost → Reader Cost
  with_choice choice r =
      with_delta choice.delta
        (record r { finish_reason = or_keep choice.finish_reason r.finish_reason })

  unfoldable pub with_choices : List StreamChoice → Reader Cost → Reader Cost
  with_choices [] r = r
  with_choices (choice ∷ choices) r = with_choices choices (with_choice choice r)

  unfoldable pub with_event : StreamEvent Cost → Reader Cost → Reader Cost
  with_event event r = with_choices event.choices (record r { usage = or_keep event.usage r.usage })

  abbrev pub on_event : Option (StreamEvent Cost) → Reader Cost → Reader Cost
  on_event none r = r
  on_event (some event) r = with_event event r

  unfoldable pub response_of : Reader Cost → StreamedResponse Cost
  response_of r = record {
    message = record {
      role = assistant;
      content = text_content r.content;
      tool_calls = final_tool_calls r.calls;
      tool_call_id = none;
    };
    finish_reason = r.finish_reason;
    usage = r.usage;
  }

  module _ (trim : String → String) (from_str : String → Option (StreamEvent Cost)) where
    -- The data of a line, and whether the inner loop goes on after it.
    abbrev pub on_data : Option String → Reader Cost → Reader Cost × Bool
    on_data none r = (r, true)
    on_data (some d) r =
        if trim d == "[DONE]" then (r, false) else (on_event (from_str (trim d)) r, true)

    unfoldable pub on_line : String → Reader Cost → Reader Cost × Bool
    on_line line r =
        if (line == "") || starts_with line ":"
        then (r, true)
        else on_data (strip_prefix line "data: ") r

    -- The inner loop, on fuel.
    unfoldable pub read_lines : ℕ → Reader Cost → Reader Cost
    read_lines zero r = r
    read_lines (suc fuel) r = elim (split_line r.buffer) [
      | none ↦ r
      | some (line, after) ↦
          let (r', more) = on_line (trim line) (record r { buffer = after }) in
          let rest = read_lines fuel r' in if more then rest else r'
    ]

    -- Every pass of the inner loop takes a newline off the buffer.
    unfoldable pub read_chunk : String → Reader Cost → Reader Cost
    read_chunk chunk r =
        let grown = push_str r.buffer chunk in
        read_lines (chars grown) (record r { buffer = grown })

    -- The outer loop over the chunks of the body. The reader is the one at its end.
    unfoldable pub process_stream :
        List (Result StreamError String)
        → Reader Cost
        → Reader Cost × Result StreamError (StreamedResponse Cost)
    process_stream [] r = (r, ok (response_of r))
    process_stream (err e ∷ chunks) r = (r, err e)
    process_stream (ok chunk ∷ chunks) r = process_stream chunks (read_chunk chunk r)
