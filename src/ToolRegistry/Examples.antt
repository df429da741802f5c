-- ===== src/ToolRegistry/Examples.antt =====
-- Tests of loop/src/tools/registry.rs, and the theorems at a concrete registry.
use overacp.Json.{
  Value, array, as_array, as_str, element, get_key, get_member, member, no_element, no_member, null,
  object, string,
}
use overacp.Llm.Types.{join, join_after}
use overacp.Prelude.Map.{get, insert, remove}
use overacp.Prelude.Names.{distinct, includes}
use overacp.Prelude.Result.{Result, err, map_ok, ok}
use overacp.Prelude.Texts.{push_str}
use overacp.Prelude.{
  List, String, [], nat_eq, none, refl, some, string_eq, suc, true, ℕ, ◌∷◌, ◌≡◌, ◌⊎◌,
}
use overacp.ToolRegistry.Builtins.{
  BuiltinTools, acp_tool_of, acp_tools_of, new, parse_acp_tools, register_builtins,
}
use overacp.ToolRegistry.Definitions.{definitions-distinct, names_of}
use overacp.ToolRegistry.Laws.{IsValid}
use overacp.ToolRegistry.Routing.{
  StandsAt, Setup, connected, execute_routes, set_up, set_up-new-IsValid, tools_listed,
}
use overacp.ToolRegistry.{
  Registry, add_definitions, all_definitions, collapse, connect_mcp, definition, definitions,
  execute, insert_mcp_tools, is_acp_tool, push_acp_tools, register, set_acp_tools,
}
use overacp.Turn.{ToolContent, ToolDefinition, ToolOutput, output_text, text_content_of}

abbrev counted : Value → ℕ → Result String ToolOutput × ℕ
counted v n = (ok (output_text "builtin"), suc n)

abbrev six : BuiltinTools ℕ
six = record {
  tool_read = counted;
  tool_write = counted;
  tool_exec = counted;
  tool_glob = counted;
  tool_grep = counted;
  tool_read_media = counted;
}

abbrev listed_tool : String → Value
listed_tool name = object (member "name" (string name) no_member)

-- The operator lists two tools, one of them twice.
abbrev operator_tools : Value
operator_tools = object (
    member "tools"
      (array (
        element (listed_tool "deploy")
          (element (listed_tool "deploy") (element (listed_tool "exec") no_element))))
      no_member)

abbrev from_server : List ToolDefinition
from_server = definition "search" "on the server" null ∷ definition "read" "on the server" null ∷ []

abbrev steps : List (Setup String)
steps = connected "server" (ok from_server) ∷ connected "server" (err "refused") ∷ []

abbrev small : Registry ℕ String
small = set_up steps (new six)

abbrev call_on_server : String → String → Value → ℕ → Result String (List ToolContent) × ℕ
call_on_server client name v n = (ok (text_content_of "from" ∷ text_content_of name ∷ []), n)

-- The server's tools come first, and its `read` hides the builtin one.
shown_names :
    names_of (definitions small)
    ≡ "read" ∷ "search" ∷ "write" ∷ "exec" ∷ "glob" ∷ "grep" ∷ "read_media" ∷ []
unfolding set_up new register_builtins register connect_mcp insert_mcp_tools insert remove
    definitions add_definitions all_definitions
shown_names = refl

-- But a call of `read` runs the builtin function.
read_runs_builtin :
    execute call_on_server "read" null small 0 ≡ some (ok (output_text "builtin"), 1)
unfolding set_up new register_builtins register connect_mcp insert_mcp_tools insert remove execute
    get
read_runs_builtin = refl

-- A name that the operator lists twice is shown twice.
shown_twice :
    names_of
      (definitions (set_up (tools_listed operator_tools ∷ []) (new {W = ℕ} {Client = String} six)))
    ≡ "deploy" ∷ "deploy" ∷ "exec" ∷ "read" ∷ "write" ∷ "glob" ∷ "grep" ∷ "read_media" ∷ []
unfolding set_up new register_builtins register parse_acp_tools acp_tools_of acp_tool_of get_key
    get_member as_str as_array set_acp_tools push_acp_tools definitions add_definitions
    all_definitions
shown_twice = refl

set_up-new-IsValid_example : IsValid (set_up steps (new six))
set_up-new-IsValid_example = set_up-new-IsValid six steps

no_operator : distinct (names_of small.acp_defs) ≡ true
unfolding set_up new register_builtins register connect_mcp distinct
no_operator = refl

definitions-distinct_example : distinct (names_of (definitions small)) ≡ true
definitions-distinct_example = definitions-distinct small no_operator

search_runs :
    execute call_on_server "search" null small 0 ≡ some (ok (output_text "from\nsearch"), 0)
unfolding set_up new register_builtins register connect_mcp insert_mcp_tools insert remove execute
    get collapse join join_after
search_runs = refl

execute_routes_example :
    ((func : Value → ℕ → Result String ToolOutput × ℕ) × (get "search" small.builtins ≡ some func)
      × (execute call_on_server "search" null small 0 ≡ some (func null 0)))
    ⊎ ((idx : ℕ) × (d : ToolDefinition) × (client : String) × (get "search" small.builtins ≡ none)
        × (get "search" small.mcp_tools ≡ some (idx, d))
        × (d.function.name ≡ "search")
        × StandsAt small.mcp_clients idx client
        × (execute call_on_server "search" null small 0
            ≡ some (
              map_ok collapse ((call_on_server client "search" null 0).0),
              (call_on_server client "search" null 0).1,
            )))
    ⊎ ((get "search" small.builtins ≡ none)
        × (get "search" small.mcp_tools ≡ none)
        × (execute call_on_server "search" null small 0
            ≡ some (err (push_str "unknown tool: " "search"), 0))
        × (includes (names_of (definitions small)) "search" ≡ is_acp_tool "search" small))
execute_routes_example =
    execute_routes call_on_server small "search" null 0 (set_up-new-IsValid six steps)
