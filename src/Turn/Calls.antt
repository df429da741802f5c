-- ===== src/Turn/Calls.antt =====
-- loop/src/agentic_loop.rs: the calls of one assistant message, each from its arguments to the message
-- that answers it. The results of the notifications are ignored, as the source does.
use overacp.Json.{Value, null}
use overacp.Llm.Types.{Content, Message, ToolCall, plain, tool}
use overacp.Prelude.Result.{Result, err, ok}
use overacp.Prelude.Texts.{push_str}
use overacp.Prelude.{Bool, List, String, [], false, if◌then◌else◌, none, some, true, ◌++◌, ◌∷◌}
use overacp.Turn.Outputs.{
  ParsedArguments, arguments_failed, arguments_ok, extract_acp_tool_result, parse_tool_arguments,
  tool_output_to_content,
}
use overacp.Turn.{AcpService, Codec, LoopState, ToolOutput, Tools}

unfoldable pub tool_message : String → Content → Message
tool_message i c = record {
  role = tool;
  content = some c;
  tool_calls = none;
  tool_call_id = some i;
}

unfoldable pub result_content : Result String ToolOutput → Content × Bool
result_content (ok output) = (tool_output_to_content output, false)
result_content (err e) = (plain (push_str "Error: " e), true)

module _ {S R Cost : Type 0} where
  abbrev pub push_message : Message → LoopState S R Cost → LoopState S R Cost
  push_message m st = record st { messages = st.messages ++ m ∷ [] }

  abbrev through_registry :
      Result String ToolOutput × R
      → LoopState S R Cost
      → Result String ToolOutput × LoopState S R Cost
  through_registry (result, tools) st = (result, record st { tools = tools })

module _ {S R Cost : Type 0} (service : AcpService S Cost) (registry : Tools R)
    (codec : Codec) where
  abbrev pub answer : ToolCall → Content × Bool → LoopState S R Cost → LoopState S R Cost
  answer tc (c, is_error) st =
      let (_, acp) = service.stream_tool_result tc.id (codec.content_value c) is_error st.acp in
      push_message (tool_message tc.id c) (record st { acp = acp })

  abbrev acp_result : Result String Value → Result String ToolOutput
  acp_result (ok value) = extract_acp_tool_result codec value
  acp_result (err e) = err e

  abbrev through_acp :
      Result String Value × S → LoopState S R Cost → Result String ToolOutput × LoopState S R Cost
  through_acp (result, acp) st = (acp_result result, record st { acp = acp })

  -- A tool of the operator goes through the tunnel, any other to the registry.
  unfoldable pub run_tool :
      ToolCall → Value → LoopState S R Cost → Result String ToolOutput × LoopState S R Cost
  run_tool tc args st =
      if registry.is_acp_tool tc.function.name st.tools
      then through_acp (service.tools_call tc.function.name args st.acp) st
      else through_registry (registry.execute tc.function.name args st.tools) st

  unfoldable pub announce : String → ToolCall → Value → LoopState S R Cost → LoopState S R Cost
  announce activity tc args st =
      let (_, acp) = service.stream_activity activity st.acp in
      let (_, acp2) = service.stream_tool_call tc.id tc.function.name args acp in
      record st { acp = acp2 }

  unfoldable pub handle_arguments :
      ToolCall → ParsedArguments → LoopState S R Cost → LoopState S R Cost
  handle_arguments tc (arguments_failed n message) st =
      answer tc (plain message, true)
        (announce (push_str "Invalid tool arguments: " tc.function.name) tc null st)
  handle_arguments tc (arguments_ok args) st =
      let (result, after) =
        run_tool tc args (announce (push_str "Running tool: " tc.function.name) tc args st) in
      answer tc (result_content result) after

  unfoldable pub handle_call : ToolCall → LoopState S R Cost → LoopState S R Cost
  handle_call tc st =
      handle_arguments tc (parse_tool_arguments codec tc.function.name tc.function.arguments) st

  -- The loop over `tool_calls`.
  unfoldable pub handle_calls : List ToolCall → LoopState S R Cost → LoopState S R Cost
  handle_calls [] st = st
  handle_calls (tc ∷ calls) st = handle_calls calls (handle_call tc st)
