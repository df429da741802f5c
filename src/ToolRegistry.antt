-- ===== src/ToolRegistry.antt =====
-- loop/src/tools/registry.rs: the tools that the model may call. `W` is what the tools act on, and
-- `Client` is `McpClient`; both, and the functions on them, are parameters.
pub mod Builtins
pub mod Laws
pub mod Definitions
pub mod Routing
pub mod Examples
use overacp.Json.{Value}
use overacp.Llm.Types.{join}
use overacp.Prelude.Map.{Map, get, insert}
use overacp.Prelude.Names.{includes}
use overacp.Prelude.Result.{Result, err, map_ok, ok}
use overacp.Prelude.Texts.{push_str}
use overacp.Prelude.{
  Bool, List, Option, String, [], false, if◌then◌else◌, length, map, nat_eq, none, some, string_eq,
  suc, true, zero, ℕ, ◌&&◌, ◌++◌, ◌∷◌,
}
use overacp.Turn.{
  ToolContent, ToolDefinition, ToolOutput, image_base64, output_blocks, output_text,
  text_content_of,
}

pub record Registry (W Client : Type 0) : Type 0 where
  pub builtins : Map String (Value → W → Result String ToolOutput × W)
  pub builtin_defs : List ToolDefinition
  pub mcp_clients : List Client
  pub mcp_tools : Map String (ℕ × ToolDefinition)
  pub acp_tools : List String
  pub acp_defs : List ToolDefinition

-- `HashSet::insert`, with whether the text is new.
abbrev pub insert_name : String → List String → List String × Bool
insert_name s names = if includes names s then (names, false) else (s ∷ names, true)

abbrev pub definition : String → String → Value → ToolDefinition
definition name description parameters = record {
  tool_type = "function";
  function = record { name = name; description = description; parameters = parameters };
}

-- The loop of `connect_mcp` over the tools of a server.
unfoldable pub insert_mcp_tools :
    ℕ → List ToolDefinition → Map String (ℕ × ToolDefinition) → Map String (ℕ × ToolDefinition)
insert_mcp_tools idx [] tools = tools
insert_mcp_tools idx (d ∷ defs) tools =
    insert_mcp_tools idx defs (insert d.function.name (idx, d) tools)

-- The two loops of `definitions` that leave out the names that were seen.
abbrev pub add_definition :
    ToolDefinition → List String × List ToolDefinition → List String × List ToolDefinition
add_definition d (seen, defs) =
    if includes seen d.function.name then (seen, defs) else (d.function.name ∷ seen, defs ++ d ∷ [])

unfoldable pub add_definitions :
    List ToolDefinition → List String × List ToolDefinition → List String × List ToolDefinition
add_definitions [] acc = acc
add_definitions (d ∷ ds) acc = add_definitions ds (add_definition d acc)

-- The first loop, over the operator's tools, which leaves none out.
unfoldable pub all_definitions :
    List ToolDefinition → List String × List ToolDefinition → List String × List ToolDefinition
all_definitions [] acc = acc
all_definitions (d ∷ ds) (seen, defs) =
    all_definitions ds ((insert_name d.function.name seen).0, defs ++ d ∷ [])

abbrev pub mcp_definitions : Map String (ℕ × ToolDefinition) → List ToolDefinition
mcp_definitions [] = []
mcp_definitions ((name, (idx, d)) ∷ rest) = d ∷ mcp_definitions rest

-- The texts of a result that holds nothing else.
abbrev is_text : ToolContent → Bool
is_text (text_content_of t) = true
is_text (image_base64 bytes mime_type) = false

abbrev text_in : ToolContent → String
text_in (text_content_of t) = t
text_in (image_base64 bytes mime_type) = ""

abbrev all_texts : List ToolContent → Bool
all_texts [] = true
all_texts (c ∷ contents) = is_text c && all_texts contents

unfoldable pub collapse : List ToolContent → ToolOutput
collapse contents =
    if all_texts contents
    then output_text (join "\n" (map text_in contents))
    else output_blocks contents

abbrev pub client_at : {Client : Type 0} → List Client → ℕ → Option Client
client_at [] idx = none
client_at (client ∷ clients) zero = some client
client_at (client ∷ clients) (suc idx) = client_at clients idx

module _ {W Client : Type 0} where
  unfoldable pub register :
      String
      → (Value → W → Result String ToolOutput × W)
      → Value
      → String
      → Registry W Client
      → Registry W Client
  register name func parameters description reg = record reg {
    builtins = insert name func reg.builtins;
    builtin_defs = reg.builtin_defs ++ definition name description parameters ∷ [];
  }

  -- `connect_mcp`, given the client that was made for the server and its answer to `list_tools`.
  unfoldable pub connect_mcp :
      Client
      → Result String (List ToolDefinition)
      → Registry W Client
      → Result String Unit × Registry W Client
  connect_mcp client (err e) reg = (err e, reg)
  connect_mcp client (ok defs) reg = (
    ok tt,
    record reg {
      mcp_tools = insert_mcp_tools (length reg.mcp_clients) defs reg.mcp_tools;
      mcp_clients = reg.mcp_clients ++ client ∷ [];
    },
  )

  -- The loop of `set_acp_tools`.
  unfoldable pub push_acp_tools : List ToolDefinition → Registry W Client → Registry W Client
  push_acp_tools [] reg = reg
  push_acp_tools (d ∷ defs) reg = push_acp_tools defs (record reg {
    acp_tools = (insert_name d.function.name reg.acp_tools).0;
    acp_defs = reg.acp_defs ++ d ∷ [];
  })

  unfoldable pub set_acp_tools : List ToolDefinition → Registry W Client → Registry W Client
  set_acp_tools defs reg = push_acp_tools defs (record reg { acp_tools = []; acp_defs = [] })

  unfoldable pub is_acp_tool : String → Registry W Client → Bool
  is_acp_tool name reg = includes reg.acp_tools name

  unfoldable pub definitions : Registry W Client → List ToolDefinition
  definitions reg =
      (add_definitions reg.builtin_defs
        (add_definitions (mcp_definitions reg.mcp_tools) (all_definitions reg.acp_defs ([], [])))).1

  module _ (call_tool : Client → String → Value → W → Result String (List ToolContent) × W) where
    abbrev by_client : Option Client → String → Value → W → Option (Result String ToolOutput × W)
    by_client none name arguments w = none
    by_client (some client) name arguments w =
        let (contents, after) = call_tool client name arguments w in
        some (map_ok collapse contents, after)

    abbrev by_mcp :
        Option (ℕ × ToolDefinition)
        → List Client
        → String
        → Value
        → W
        → Option (Result String ToolOutput × W)
    by_mcp none clients name arguments w = some (err (push_str "unknown tool: " name), w)
    by_mcp (some (idx, d)) clients name arguments w =
        by_client (client_at clients idx) name arguments w

    abbrev by_builtin :
        Option (Value → W → Result String ToolOutput × W)
        → Registry W Client
        → String
        → Value
        → W
        → Option (Result String ToolOutput × W)
    by_builtin none reg name arguments w =
        by_mcp (get name reg.mcp_tools) reg.mcp_clients name arguments w
    by_builtin (some func) reg name arguments w = some (func arguments w)

    -- `execute`; none stands for the panic at an index out of range.
    unfoldable pub execute :
        String → Value → Registry W Client → W → Option (Result String ToolOutput × W)
    execute name arguments reg w = by_builtin (get name reg.builtins) reg name arguments w
