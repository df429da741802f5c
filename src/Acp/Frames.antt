-- ===== src/Acp/Frames.antt =====
-- loop/src/acp.rs with protocol/src/methods.rs and protocol/src/messages.rs: the client as the service
-- of the agentic loop. The conversion of a history into the protocol's messages, through JSON, is
-- a parameter.
use overacp.Acp.{AcpClient, Wire, Writer, count, fields, send_notification, send_request, text_json}
use overacp.Json.{Value, as_bool, boolean, get_key, object}
use overacp.Llm.Stream.{Usage}
use overacp.Llm.Types.{Message}
use overacp.Prelude.Result.{Result, err, map_ok}
use overacp.Prelude.{Bool, List, Option, String, [], none, some, true, ℕ, ◌∷◌}
use overacp.Turn.{AcpService}

abbrev pub usage_value : ℕ → ℕ → Value
usage_value input_tokens output_tokens =
    object
      (fields (("input_tokens", count input_tokens) ∷ ("output_tokens", count output_tokens) ∷ []))

abbrev pub value_of : List (String × Value) → Option Value
value_of l = some (object (fields l))

abbrev allowed_in : Option Value → Bool
allowed_in none = true
allowed_in (some v) = elim (as_bool v) [ none ↦ true | some b ↦ b ]

abbrev dropped : Result String Value → Result String Unit
dropped r = map_ok (λ v. tt) r

module _ {W : Type 0} (wire : Wire) (out : Writer W) where
  unfoldable pub client_text_delta : String → AcpClient W → Result String Unit × AcpClient W
  client_text_delta t =
      send_notification wire out "stream/textDelta" (value_of (("text", text_json t) ∷ []))

  unfoldable pub client_activity : String → AcpClient W → Result String Unit × AcpClient W
  client_activity activity =
      send_notification wire out "stream/activity"
        (value_of (("kind", text_json "log") ∷ ("data", text_json activity) ∷ []))

  unfoldable pub client_tool_call :
      String → String → Value → AcpClient W → Result String Unit × AcpClient W
  client_tool_call id name arguments =
      send_notification wire out "stream/toolCall"
        (value_of (("id", text_json id) ∷ ("name", text_json name) ∷ ("arguments", arguments) ∷ []))

  unfoldable pub client_tool_result :
      String → Value → Bool → AcpClient W → Result String Unit × AcpClient W
  client_tool_result id content is_error =
      send_notification wire out "stream/toolResult" (
        value_of
          (("id", text_json id) ∷ ("content", content) ∷ ("is_error", boolean is_error) ∷ []))

  unfoldable pub client_quota_check : AcpClient W → Result String Bool × AcpClient W
  client_quota_check client =
      let (result, after) = send_request wire out "quota/check" none client in
      (map_ok (λ v. allowed_in (get_key v "allowed")) result, after)

  unfoldable pub client_quota_update : ℕ → ℕ → AcpClient W → Result String Unit × AcpClient W
  client_quota_update input_tokens output_tokens client =
      let (result, after) =
        send_request wire out "quota/update" (some (usage_value input_tokens output_tokens))
          client in
      (dropped result, after)

  unfoldable pub client_heartbeat : AcpClient W → Result String Unit × AcpClient W
  client_heartbeat = send_notification wire out "heartbeat" none

  unfoldable pub client_tools_list : AcpClient W → Result String Value × AcpClient W
  client_tools_list = send_request wire out "tools/list" none

  unfoldable pub client_tools_call :
      String → Value → AcpClient W → Result String Value × AcpClient W
  client_tools_call name arguments =
      send_request wire out "tools/call"
        (value_of (("name", text_json name) ∷ ("arguments", arguments) ∷ []))

module _ {W Cost : Type 0} (wire : Wire) (out : Writer W)
    (proto_messages : List Message → Option Value) where
  -- An empty list of messages is left out of the frame.
  unfoldable pub client_turn_end :
      List Message → Usage Cost → AcpClient W → Result String Unit × AcpClient W
  client_turn_end messages usage =
      send_notification wire out "turn/end"
        (value_of (("usage", usage_value usage.prompt_tokens usage.completion_tokens) ∷ []))

  abbrev pub compacted_frame :
      Option Value → String → Usage Cost → AcpClient W → Result String Unit × AcpClient W
  compacted_frame none summary usage client =
      (err "convert llm::Message to protocol::Message for context/compacted", client)
  compacted_frame (some messages) summary usage client =
      send_notification wire out "context/compacted"
        (value_of (
          ("summary", text_json summary)
          ∷ ("messages", messages)
          ∷ ("usage", usage_value usage.prompt_tokens usage.completion_tokens)
          ∷ []))
        client

  unfoldable pub client_context_compacted :
      String → List Message → Usage Cost → AcpClient W → Result String Unit × AcpClient W
  client_context_compacted summary messages = compacted_frame (proto_messages messages) summary

  -- `impl AcpService for AcpClient`
  unfoldable pub client_service : AcpService (AcpClient W) Cost
  client_service = record {
    stream_text_delta = client_text_delta wire out;
    stream_activity = client_activity wire out;
    stream_tool_call = client_tool_call wire out;
    stream_tool_result = client_tool_result wire out;
    turn_end = client_turn_end;
    context_compacted = client_context_compacted;
    quota_check = client_quota_check wire out;
    quota_update = client_quota_update wire out;
    heartbeat = client_heartbeat wire out;
    tools_call = client_tools_call wire out;
  }
