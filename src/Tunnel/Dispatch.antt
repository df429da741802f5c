-- ===== src/Tunnel/Dispatch.antt =====
-- server/src/tunnel/dispatch.rs: which hook answers a message of an agent, and with which response.
pub mod Laws
pub mod Examples
use Prim.Native.Char.{code}
use overacp.Auth.{Claims}
use overacp.Json.{
  Serde, Value, as_str, boolean, get_key, integer, member, no_member, null, number, object, string,
}
use overacp.Prelude.Int.{negsuc, pos, ℤ}
use overacp.Prelude.Result.{Result, err, map_err, map_ok, ok}
use overacp.Prelude.Texts.{push_str}
use overacp.Prelude.{
  Bool, Option, String, [], any, if◌then◌else◌, nat_eq, none, some, string_eq, ◌==◌, ◌∷◌,
}
use overacp.Tunnel.Hooks.{
  BootError, Hooks, QuotaError, ToolError, boot_internal, boot_not_found, boot_text, empty_object,
  object_of, quota_internal, quota_text, tool_denied, tool_execution, tool_internal, tool_not_found,
  tool_text,
}

abbrev code_not_found : ℤ
code_not_found = pos 1404

abbrev code_internal : ℤ
code_internal = pos 1500

abbrev code_execution_failed : ℤ
code_execution_failed = pos 1502

abbrev code_denied : ℤ
code_denied = pos 1603

-- The code and the message of a JSON-RPC error.
abbrev pub RpcError : Type 0
RpcError = ℤ × String

unfoldable pub boot_err : BootError → RpcError
unfolding boot_text
boot_err (boot_not_found s) = (code_not_found, boot_text (boot_not_found s))
boot_err (boot_internal s) = (code_internal, boot_text (boot_internal s))

unfoldable pub tool_err : ToolError → RpcError
unfolding tool_text
tool_err (tool_not_found s) = (code_not_found, tool_text (tool_not_found s))
tool_err (tool_denied s) = (code_denied, tool_text (tool_denied s))
tool_err (tool_execution s) = (code_execution_failed, tool_text (tool_execution s))
tool_err (tool_internal s) = (code_internal, tool_text (tool_internal s))

unfoldable pub quota_err : QuotaError → RpcError
unfolding quota_text
quota_err (quota_internal s) = (code_internal, quota_text (quota_internal s))

abbrev pub after_hook :
    {S E A : Type 0} → (A → Value) → (E → RpcError) → Result E A × S → Result RpcError Value × S
after_hook f g (r, s) = (map_err g (map_ok f r), s)

unfoldable pub response_value : Value → Result RpcError Value → Value
response_value i (ok v) =
    object (member "jsonrpc" (string "2.0") (member "id" i (member "result" v no_member)))
response_value i (err (code, message)) = object (
    member "jsonrpc" (string "2.0") (
      member "id" i (
        member "error"
          (object
            (member "code" (number (integer code)) (member "message" (string message) no_member)))
          no_member)))

abbrev pub is_notification : String → Bool
is_notification method =
    any (λ m. method == m)
      ("stream/textDelta" ∷ "stream/activity" ∷ "stream/toolCall" ∷ "stream/toolResult" ∷ "turn/end"
        ∷ "context/compacted" ∷ "heartbeat" ∷ [])

abbrev pub or_null : Option Value → Value
or_null none = null
or_null (some v) = v

abbrev pub method_of : Value → Option String
method_of parsed = elim (get_key parsed "method") [ none ↦ none | some v ↦ as_str v ]

module _ {S : Type 0} (hooks : Hooks S) (claims : Claims) where
  unfoldable pub handle_initialize : S → Result RpcError Value × S
  handle_initialize s = after_hook (λ v. v) boot_err (hooks.initialize claims s)

  unfoldable pub handle_tools_list : S → Result RpcError Value × S
  handle_tools_list s = after_hook (λ v. v) tool_err (hooks.list claims s)

  unfoldable pub handle_tools_call : Value → S → Result RpcError Value × S
  handle_tools_call params s = after_hook (λ v. v) tool_err (hooks.call claims params s)

  unfoldable pub handle_quota_check : S → Result RpcError Value × S
  handle_quota_check s =
      after_hook (λ allowed. object_of "allowed" (boolean allowed)) quota_err (hooks.check claims s)

  unfoldable pub handle_quota_update : Value → S → Result RpcError Value × S
  handle_quota_update params s =
      after_hook (λ nothing. empty_object) quota_err (hooks.record_usage claims params s)

module _ (serde : Serde) where
  unfoldable pub jsonrpc_response : Value → Result RpcError Value → String
  jsonrpc_response i r = serde.to_string (response_value i r)

  abbrev some_response : {S : Type 0} → Value → Result RpcError Value × S → Option String × S
  some_response i (r, s) = (some (jsonrpc_response i r), s)

  -- `id?` stands before the call of the handler.
  abbrev respond :
      {S : Type 0} → Option Value → (S → Result RpcError Value × S) → S → Option String × S
  respond none handler s = (none, s)
  respond (some i) handler s = some_response i (handler s)

  module _ {S : Type 0} (hooks : Hooks S) (claims : Claims) where
    -- The `match` on the method.
    unfoldable pub dispatch : String → Option Value → Value → S → Option String × S
    dispatch method i params s =
        if method == "initialize"
        then respond i (handle_initialize hooks claims) s
        else if method == "tools/list"
        then respond i (handle_tools_list hooks claims) s
        else if method == "tools/call"
        then respond i (handle_tools_call hooks claims params) s
        else if method == "quota/check"
        then respond i (handle_quota_check hooks claims) s
        else if method == "quota/update"
        then respond i (handle_quota_update hooks claims params) s
        else if is_notification method
        then (none, s)
        else respond i (λ s. (err (negsuc 32600, push_str "method not found: " method), s)) s

    abbrev pub after_method : Option String → Value → S → Option String × S
    after_method none parsed s = (none, s)
    after_method (some method) parsed s =
        dispatch method (get_key parsed "id") (or_null (get_key parsed "params")) s

    abbrev pub after_parse : Option Value → S → Option String × S
    after_parse none s = (none, s)
    after_parse (some parsed) s = after_method (method_of parsed) parsed s

    unfoldable pub handle_message : String → S → Option String × S
    handle_message message s = after_parse (serde.from_str message) s
