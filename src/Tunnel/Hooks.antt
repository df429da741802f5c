-- ===== src/Tunnel/Hooks.antt =====
-- server/src/hooks/{boot,tools,quota}.rs: the operator's hooks, with the errors they return and the
-- reference server's defaults. A hook may change the operator's state, which the server never reads.
use overacp.Auth.{Claims}
use overacp.Json.{Value, array, as_str, get_key, member, no_element, no_member, object, string}
use overacp.Prelude.Result.{Result, err, ok}
use overacp.Prelude.Texts.{push_str}
use overacp.Prelude.{Bool, Option, String, none, some, true}

pub data BootError : Type 0 where
  boot_not_found boot_internal : String → BootError

pub data ToolError : Type 0 where
  tool_not_found tool_denied tool_execution tool_internal : String → ToolError

pub data QuotaError : Type 0 where
  quota_internal : String → QuotaError

-- The messages that `thiserror` derives.
unfoldable pub boot_text : BootError → String
boot_text (boot_not_found s) = push_str "no boot state for agent " s
boot_text (boot_internal s) = push_str "boot provider failed: " s

unfoldable pub tool_text : ToolError → String
tool_text (tool_not_found s) = push_str "tool not found: " s
tool_text (tool_denied s) = push_str "tool denied: " s
tool_text (tool_execution s) = push_str "tool execution failed: " s
tool_text (tool_internal s) = push_str "tool host failed: " s

unfoldable pub quota_text : QuotaError → String
quota_text (quota_internal s) = push_str "quota policy failed: " s

pub record Hooks (S : Type 0) : Type 0 where
  pub initialize : Claims → S → Result BootError Value × S
  pub list : Claims → S → Result ToolError Value × S
  pub call : Claims → Value → S → Result ToolError Value × S
  pub check : Claims → S → Result QuotaError Bool × S
  pub record_usage : Claims → Value → S → Result QuotaError Unit × S

abbrev pub empty_object : Value
empty_object = object no_member

abbrev pub object_of : String → Value → Value
object_of key v = object (member key v no_member)

unfoldable pub default_boot : Value
default_boot = object (
    member "system_prompt" (string "")
      (member "messages" (array no_element) (member "tools_config" empty_object no_member)))

abbrev text_at : Option Value → Option String
text_at none = none
text_at (some v) = as_str v

abbrev text_or : Option String → String → String
text_or none s = s
text_or (some t) s = t

unfoldable pub tool_name : Value → String
tool_name req = text_or (text_at (get_key req "name")) "<unknown>"

-- `DefaultBootProvider`, `DefaultToolHost` and `DefaultQuotaPolicy`
unfoldable pub default_hooks : {S : Type 0} → Hooks S
default_hooks = record {
  initialize = λ claims s. (ok default_boot, s);
  list = λ claims s. (ok (object_of "tools" (array no_element)), s);
  call = λ claims req s. (err (tool_not_found (tool_name req)), s);
  check = λ claims s. (ok true, s);
  record_usage = λ claims usage s. (ok tt, s);
}
