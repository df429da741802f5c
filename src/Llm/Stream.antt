-- ===== src/Llm/Stream.antt =====
-- loop/src/llm/client.rs with loop/src/llm/types.rs: how the pieces of streamed tool calls are put
-- together, and how a usage report is read. A cost is a parameter type: it is only copied.
pub mod Calls
pub mod Examples
use overacp.Llm.Types.{ToolCall}
use overacp.Prelude.Texts.{push_str}
use overacp.Prelude.{
  List, Option, String, [], if◌then◌else◌, leb, length, map, none, some, suc, zero, ℕ, ◌++◌, ◌-◌,
  ◌∷◌,
}

pub record FunctionCallDelta : Type 0 where
  pub name : Option String
  pub arguments : Option String

pub record ToolCallDelta : Type 0 where
  pub index : ℕ
  pub id : Option String
  pub function : Option FunctionCallDelta

pub record PartialToolCall : Type 0 where
  pub id : String
  pub name : String
  pub arguments : String

abbrev pub blank : PartialToolCall
blank = record { id = ""; name = ""; arguments = "" }

abbrev pub blanks : ℕ → List PartialToolCall
blanks zero = []
blanks (suc n) = blank ∷ blanks n

-- The loop that pushes blank calls while `calls.len() <= index`.
unfoldable pub pad : ℕ → List PartialToolCall → List PartialToolCall
pad index calls = calls ++ blanks (suc index - length calls)

abbrev pub update_at :
    ℕ → (PartialToolCall → PartialToolCall) → List PartialToolCall → List PartialToolCall
update_at index f [] = []
update_at zero f (c ∷ calls) = f c ∷ calls
update_at (suc index) f (c ∷ calls) = c ∷ update_at index f calls

abbrev pub or_text : Option String → String → String
or_text none s = s
or_text (some t) s = t

abbrev pub appended : String → Option String → String
appended s none = s
appended s (some t) = push_str s t

abbrev pub with_function : Option FunctionCallDelta → PartialToolCall → PartialToolCall
with_function none c = c
with_function (some f) c = record {
  id = c.id;
  name = or_text f.name c.name;
  arguments = appended c.arguments f.arguments;
}

unfoldable pub apply_delta : ToolCallDelta → PartialToolCall → PartialToolCall
apply_delta delta c =
    with_function delta.function
      (record { id = or_text delta.id c.id; name = c.name; arguments = c.arguments })

unfoldable pub accumulate_tool_call : List PartialToolCall → ToolCallDelta → List PartialToolCall
accumulate_tool_call calls delta = update_at delta.index (apply_delta delta) (pad delta.index calls)

-- The loops of `process_stream` over the deltas of the choices, in the order of the stream.
unfoldable pub accumulate_all : List PartialToolCall → List ToolCallDelta → List PartialToolCall
accumulate_all calls [] = calls
accumulate_all calls (delta ∷ deltas) = accumulate_all (accumulate_tool_call calls delta) deltas

abbrev finished : PartialToolCall → ToolCall
finished c = record {
  id = c.id;
  call_type = "function";
  function = record { name = c.name; arguments = c.arguments };
}

-- `final_tool_calls`
unfoldable pub final_tool_calls : List PartialToolCall → Option (List ToolCall)
final_tool_calls [] = none
final_tool_calls (c ∷ calls) = some (map finished (c ∷ calls))

pub record Usage (Cost : Type 0) : Type 0 where
  pub prompt_tokens : ℕ
  pub completion_tokens : ℕ
  pub total_tokens : ℕ
  pub cost : Cost
  pub cache_read_tokens : ℕ
  pub cache_creation_tokens : ℕ

-- `Raw`, after its defaults are filled in; the details hold `cached_tokens`.
pub record Raw (Cost : Type 0) : Type 0 where
  pub prompt_tokens : ℕ
  pub completion_tokens : ℕ
  pub total_tokens : ℕ
  pub cost : Cost
  pub cache_read_input_tokens : ℕ
  pub cache_creation_input_tokens : ℕ
  pub prompt_tokens_details : Option ℕ

abbrev pub map_or_zero : Option ℕ → ℕ
map_or_zero none = 0
map_or_zero (some n) = n

abbrev pub max : ℕ → ℕ → ℕ
max a b = if leb a b then b else a

-- `Usage::deserialize`
unfoldable pub usage_of : {Cost : Type 0} → Raw Cost → Usage Cost
usage_of raw = record {
  prompt_tokens = raw.prompt_tokens;
  completion_tokens = raw.completion_tokens;
  total_tokens = raw.total_tokens;
  cost = raw.cost;
  cache_read_tokens = max raw.cache_read_input_tokens (map_or_zero raw.prompt_tokens_details);
  cache_creation_tokens = raw.cache_creation_input_tokens;
}
