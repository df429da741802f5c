-- ===== src/Tunnel/Dispatch/Examples.antt =====
-- Tests of server/src/tunnel/dispatch.rs, and the theorems at concrete messages.
use overacp.Auth.{Claims, agent}
use overacp.Json.{
  Serde, Value, as_str, get_key, get_member, integer, member, no_member, number, object, string,
}
use overacp.Prelude.Int.{pos}
use overacp.Prelude.Result.{Result, err, ok}
use overacp.Prelude.{
  Option, String, if◌then◌else◌, inl, inr, nat_eq, none, refl, some, string_eq, true, ℕ, ◌+◌, ◌==◌,
  ◌≡◌,
}
use overacp.Tunnel.Dispatch.Laws.{ServedBy, handle_message_answers, handle_message_silent}
use overacp.Tunnel.Dispatch.{
  RpcError, handle_message, handle_tools_call, jsonrpc_response, tool_err,
}
use overacp.Tunnel.Hooks.{
  Hooks, default_boot, default_hooks, empty_object, tool_denied, tool_name, tool_text,
}

abbrev printed_as : String → Value → String
printed_as s v = s

abbrev request : String → Value
request method = object (
    member "jsonrpc" (string "2.0") (
      member "id" (number (integer (pos 1))) (
        member "method" (string method)
          (member "params" (object (member "name" (string "echo") no_member)) no_member))))

abbrev notification : String → Value
notification method =
    object (member "jsonrpc" (string "2.0") (member "method" (string method) no_member))

-- The texts stand for their frames.
abbrev parse : String → Option Value
parse s =
    if s == "call"
    then some (request "tools/call")
    else if s == "update"
    then some (notification "quota/update")
    else if s == "push"
    then some (request "session/message")
    else none

abbrev pub serde : Serde
serde = record { from_str = parse; to_string = printed_as "response" }

-- Hooks that count their calls and fail the tool.
abbrev pub counting : Hooks ℕ
counting = record {
  initialize = λ claims s. (ok default_boot, s + 1);
  list = λ claims s. (ok empty_object, s + 1);
  call = λ claims req s. (err (tool_denied (tool_name req)), s + 1);
  check = λ claims s. (ok true, s + 1);
  record_usage = λ claims usage s. (ok tt, s + 1);
}

abbrev pub claims : Claims
unfolding agent
claims = agent 7 none (pos 60) "overacp" (pos 0)

-- A denied tool has the code 1603.
denied :
    handle_tools_call counting claims (object (member "name" (string "echo") no_member)) 0
    ≡ (err (pos 1603, "tool denied: echo"), 1)
unfolding handle_tools_call tool_err tool_text tool_name get_key get_member as_str
denied = refl

-- `tools_call_default_returns_not_found_application_error`
default_tool :
    (handle_tools_call (default_hooks {S = ℕ}) claims (object no_member) 0).0
    ≡ err (pos 1404, "tool not found: <unknown>")
unfolding handle_tools_call tool_err tool_text tool_name get_key get_member as_str default_hooks
default_tool = refl

handle_message_answers_example :
    let (answer, after) = handle_message serde counting claims "call" 0 in
    (r : Result RpcError Value) × (answer
      ≡ some (jsonrpc_response serde (number (integer (pos 1))) r))
    × ServedBy serde counting claims "tools/call"
        (object (member "name" (string "echo") no_member))
        0
        (r, after)
unfolding get_key get_member as_str
handle_message_answers_example =
    handle_message_answers serde counting claims "call" (request "tools/call") "tools/call"
      (number (integer (pos 1))) 0 refl refl refl refl

-- Usage that is reported without an id reaches no hook.
handle_message_silent_example : handle_message serde counting claims "update" 5 ≡ (none, 5)
unfolding get_key get_member as_str
handle_message_silent_example =
    handle_message_silent serde counting claims "update" 5
      (inr (notification "quota/update", refl, inr (inl refl)))
