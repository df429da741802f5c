-- ===== src/ToolRegistry/Builtins.antt =====
-- loop/src/tools/registry.rs: the registry at the start, and the operator's list of tools. The six
-- builtin functions act on files and processes: they are parameters.
use overacp.Json.{
  Elements, Members, Value, array, as_array, as_str, element, get_key, member, no_element,
  no_member, object, string,
}
use overacp.Prelude.Result.{Result}
use overacp.Prelude.{List, Option, String, [], none, some, ◌∷◌}
use overacp.ToolRegistry.{Registry, definition, register}
use overacp.Turn.{ToolDefinition, ToolOutput}

abbrev property : String → String → String → Members → Members
property name type_name description rest =
    member name
      (object
        (member "type" (string type_name) (member "description" (string description) no_member)))
      rest

abbrev strings : List String → Elements
strings [] = no_element
strings (s ∷ rest) = element (string s) (strings rest)

abbrev schema : Members → List String → Value
schema properties required = object (
    member "type" (string "object") (
      member "properties" (object properties)
        (member "required" (array (strings required)) no_member)))

pub record BuiltinTools (W : Type 0) : Type 0 where
  pub tool_read : Value → W → Result String ToolOutput × W
  pub tool_write : Value → W → Result String ToolOutput × W
  pub tool_exec : Value → W → Result String ToolOutput × W
  pub tool_glob : Value → W → Result String ToolOutput × W
  pub tool_grep : Value → W → Result String ToolOutput × W
  pub tool_read_media : Value → W → Result String ToolOutput × W

module _ {W Client : Type 0} where
  unfoldable pub register_builtins : BuiltinTools W → Registry W Client → Registry W Client
  register_builtins tools reg =
      register "read_media" tools.tool_read_media
        (schema
          (property "path" "string" "Absolute path to a media file" (
            property "media_type" "string"
              "MIME type override (e.g. image/png). Takes priority over extension-based detection."
              no_member))
          ("path" ∷ []))
        "Read an image file and return it as a visual content block the model can see."
        (register "grep" tools.tool_grep
          (schema
            (property "pattern" "string" "Search pattern (regex)"
              (property "path" "string" "Directory to search (default .)" no_member))
            ("pattern" ∷ []))
          "Search file contents with grep."
          (register "glob" tools.tool_glob
            (schema
              (property "pattern" "string" "Glob pattern"
                (property "path" "string" "Directory to search (default .)" no_member))
              ("pattern" ∷ []))
            "Find files matching a glob pattern."
            (register "exec" tools.tool_exec
              (schema
                (property "command" "string" "Bash command to execute"
                  (property "timeout" "integer" "Timeout in seconds (default 120)" no_member))
                ("command" ∷ []))
              "Execute a bash command with timeout."
              (register "write" tools.tool_write
                (schema
                  (property "path" "string" "Absolute path to write"
                    (property "content" "string" "File content" no_member))
                  ("path" ∷ "content" ∷ []))
                "Write content to a file, creating parent directories."
                (register "read" tools.tool_read
                  (schema
                    (property "path" "string" "Absolute path to read" (
                      property "offset" "integer" "Line offset (0-based)"
                        (property "limit" "integer" "Max lines to read" no_member)))
                    ("path" ∷ []))
                  "Read a file with optional line offset and limit." reg)))))

  unfoldable pub new : BuiltinTools W → Registry W Client
  new tools = register_builtins tools (record {
    builtins = [];
    builtin_defs = [];
    mcp_clients = [];
    mcp_tools = [];
    acp_tools = [];
    acp_defs = [];
  })

abbrev text_of_key : Value → String → Option String
text_of_key v key = elim (get_key v key) [ none ↦ none | some t ↦ as_str t ]

abbrev text_or : Option String → String → String
text_or none s = s
text_or (some t) s = t

abbrev value_or : Option Value → Value → Value
value_or none v = v
value_or (some w) v = w

-- The closure of `filter_map`: a tool without a name is left out.
unfoldable pub acp_tool_of : Value → Option ToolDefinition
acp_tool_of t = elim (text_of_key t "name") [
  | none ↦ none
  | some name ↦ some (
      definition name (text_or (text_of_key t "description") "ACP tool")
        (value_or (get_key t "inputSchema") (object (member "type" (string "object") no_member))))
]

unfoldable pub acp_tools_of : Elements → List ToolDefinition
acp_tools_of no_element = []
acp_tools_of (element t rest) =
    let defs = acp_tools_of rest in elim (acp_tool_of t) [ none ↦ defs | some d ↦ d ∷ defs ]

abbrev in_array : Option Elements → List ToolDefinition
in_array none = []
in_array (some items) = acp_tools_of items

unfoldable pub parse_acp_tools : Value → List ToolDefinition
parse_acp_tools value = elim (get_key value "tools") [ none ↦ [] | some v ↦ in_array (as_array v) ]
