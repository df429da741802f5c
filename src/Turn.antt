-- ===== src/Turn.antt =====
-- loop/src/agentic_loop.rs with loop/src/traits.rs: a turn of the reference agent. The services are
-- interfaces whose operations pass a state of their own; an `anyhow` error is its text. The log is left
-- out, and the Langfuse trace with the variables that only the trace is given.
pub mod Outputs
pub mod Calls
pub mod Run
pub mod Open
pub mod Pairing
pub mod History
pub mod Turns
pub mod Service
pub mod Recorded
pub mod Order
pub mod Invariant
pub mod Limits
pub mod Outer
pub mod Across
pub mod Examples
use overacp.Json.{Value}
use overacp.Llm.Compaction.{CompletionResponse}
use overacp.Llm.Retry.{complete, stream_completion}
use overacp.Llm.Sse.{StreamedResponse}
use overacp.Llm.Stream.{Usage}
use overacp.Llm.Types.{Content, Message}
use overacp.Prelude.Result.{Result}
use overacp.Prelude.{Bool, List, String, ℕ}

-- `AcpService`, by the operations that the loop calls. `Cost` is a 64-bit float, which is only added.
pub record AcpService (S Cost : Type 0) : Type 0 where
  pub stream_text_delta : String → S → Result String Unit × S
  pub stream_activity : String → S → Result String Unit × S
  pub stream_tool_call : String → String → Value → S → Result String Unit × S
  pub stream_tool_result : String → Value → Bool → S → Result String Unit × S
  pub turn_end : List Message → Usage Cost → S → Result String Unit × S
  pub context_compacted : String → List Message → Usage Cost → S → Result String Unit × S
  pub quota_check : S → Result String Bool × S
  pub quota_update : ℕ → ℕ → S → Result String Unit × S
  pub heartbeat : S → Result String Unit × S
  pub tools_call : String → Value → S → Result String Value × S

pub record FunctionDef : Type 0 where
  pub name : String
  pub description : String
  pub parameters : Value

pub record ToolDefinition : Type 0 where
  pub tool_type : String
  pub function : FunctionDef

pub data ToolContent : Type 0 where
  text_content_of : String → ToolContent
  image_base64 : String → String → ToolContent

pub data ToolOutput : Type 0 where
  output_text : String → ToolOutput
  output_blocks : List ToolContent → ToolOutput

-- `ToolRegistry`, by what the loop asks of it.
pub record Tools (R : Type 0) : Type 0 where
  pub definitions : R → List ToolDefinition
  pub is_acp_tool : String → R → Bool
  pub execute : String → Value → R → Result String ToolOutput × R

-- What the clock and the model say in one iteration: the time since the start of the turn when the
-- timeout is tested, the time when the heartbeat is tested, and the answers of the two calls of
-- `LlmService`. A streamed call gives the texts that it put out, and how it ended.
pub record Round (Cost : Type 0) : Type 0 where
  pub elapsed : ℕ
  pub beat : ℕ
  pub complete : List Message → Result String CompletionResponse
  pub stream_completion :
      List Message → List ToolDefinition → List String × Result String (StreamedResponse Cost)

-- A JSON error of `serde_json`: whether the input ended early, and its text.
pub record JsonError : Type 0 where
  pub is_eof : Bool
  pub shown : String

-- The functions of `serde_json` and `fmt` that the loop calls.
pub record Codec : Type 0 where
  pub parse : String → Result JsonError Value
  pub print : Value → String
  pub content_value : Content → Value
  pub of_nat : ℕ → String

-- `LoopConfig`. The log divides by `context_window`, and `over_threshold` is the comparison of an estimate with the part of the context window
-- at which compaction is due, which the code makes in floats. Times are milliseconds.
pub record LoopConfig : Type 0 where
  pub max_iterations : ℕ
  pub timeout : ℕ
  pub context_window : ℕ
  pub over_threshold : ℕ → Bool
  pub compaction_keep_recent : ℕ
  pub max_compactions : ℕ

-- The variables of `run`.
pub record LoopState (S R Cost : Type 0) : Type 0 where
  pub acp : S
  pub tools : R
  pub messages : List Message
  pub total_usage : Usage Cost
  pub silent_turns : ℕ
  pub last_heartbeat : ℕ
  pub compaction_count : ℕ

-- How `run` fails: it returns an error, or it panics and ends the process.
pub data LoopError : Type 0 where
  failed : String → LoopError
  panicked : LoopError

-- How a part of an iteration ends: it goes on, the loop is left, or `run` fails.
pub data Flow (A : Type 0) : Type 0 where
  go_on : A → Flow A
  leave : A → Flow A
  give_back : LoopError → A → Flow A

unfoldable pub and_then : {A : Type 0} → Flow A → (A → Flow A) → Flow A
and_then (go_on a) f = f a
and_then (leave a) f = leave a
and_then (give_back e a) f = give_back e a

-- The state at the end, however it came.
unfoldable pub state_of : {A : Type 0} → Flow A → A
state_of (go_on a) = a
state_of (leave a) = a
state_of (give_back e a) = a
