-- ===== src/ToolRegistry/Routing.antt =====
-- loop/src/tools/registry.rs with loop/src/main.rs: the registry that the start of the program builds,
-- and what `execute` does with a name.
use overacp.Json.{Value}
use overacp.Prelude.Map.{get}
use overacp.Prelude.Names.{includes}
use overacp.Prelude.Result.{Result, err, map_ok}
use overacp.Prelude.Texts.{push_str}
use overacp.Prelude.{
  List, Option-cases, String, [], ap, arith, inl, inr, length, nat_eq, none, refl, some, string_eq,
  suc, sym, zero, ℕ, ◌++◌, ◌<◌, ◌∙◌, ◌∷◌, ◌≡◌, ◌⊎◌,
}
use overacp.ToolRegistry.Builtins.{BuiltinTools, new, parse_acp_tools}
use overacp.ToolRegistry.Definitions.{definitions-includes, names_of}
use overacp.ToolRegistry.Laws.{
  Entries-agree, Entries-client, Entries-named, IsValid, connect_mcp-IsValid, new-IsValid,
  set_acp_tools-IsValid,
}
use overacp.ToolRegistry.{
  Registry, client_at, collapse, connect_mcp, definitions, execute, is_acp_tool, set_acp_tools,
}
use overacp.Turn.Calls.{answer}
use overacp.Turn.{ToolContent, ToolDefinition, ToolOutput}

-- What `run` of loop/src/main.rs does with the registry after `new`: it connects servers and takes
-- over the operator's tools.
pub data Setup (Client : Type 0) : Type 0 where
  connected : Client → Result String (List ToolDefinition) → Setup Client
  tools_listed : Value → Setup Client

module _ {W Client : Type 0} where
  abbrev pub if_any : List ToolDefinition → Registry W Client → Registry W Client
  if_any [] reg = reg
  if_any (d ∷ defs) reg = set_acp_tools (d ∷ defs) reg

  unfoldable pub set_up : List (Setup Client) → Registry W Client → Registry W Client
  set_up [] reg = reg
  set_up (connected client answer ∷ rest) reg = set_up rest ((connect_mcp client answer reg).1)
  set_up (tools_listed value ∷ rest) reg = set_up rest (if_any (parse_acp_tools value) reg)

  if_any-IsValid :
      (defs : List ToolDefinition) (reg : Registry W Client)
      → IsValid reg
      → IsValid (if_any defs reg)
  if_any-IsValid [] reg v = v
  if_any-IsValid (d ∷ defs) reg v = set_acp_tools-IsValid (d ∷ defs) reg v

  set_up-IsValid :
      (steps : List (Setup Client)) (reg : Registry W Client)
      → IsValid reg
      → IsValid (set_up steps reg)
  unfolding set_up
  set_up-IsValid [] reg v = v
  set_up-IsValid (connected client answer ∷ rest) reg v =
      set_up-IsValid rest _ (connect_mcp-IsValid client answer reg v)
  set_up-IsValid (tools_listed value ∷ rest) reg v =
      set_up-IsValid rest _ (if_any-IsValid (parse_acp_tools value) reg v)

  -- However many servers are connected and lists are taken over, in whatever order and with whatever
  -- answers, the registry is valid.
  pub set_up-new-IsValid :
      (tools : BuiltinTools W) (steps : List (Setup Client)) → IsValid (set_up steps (new tools))
  set_up-new-IsValid tools steps = set_up-IsValid steps (new tools) (new-IsValid tools)

-- The client that `idx` others stand before.
abbrev pub StandsAt : {Client : Type 0} → List Client → ℕ → Client → Type 0
StandsAt {Client = Client} clients idx client =
    (before : List Client) × (after : List Client) × (clients ≡ before ++ client ∷ after)
    × (length before ≡ idx)

client_at-some :
    {Client : Type 0} (clients : List Client) (idx : ℕ)
    → idx < length clients
    → (client : Client) × (client_at clients idx ≡ some client) × StandsAt clients idx client
client_at-some [] idx h = absurd (omega arith)
client_at-some (c ∷ clients) zero h = (c, refl, ([], clients, refl, refl))
client_at-some (c ∷ clients) (suc idx) h =
    let (client, e, (before, after, split, count)) = client_at-some clients idx (omega arith) in
    (client, e, (c ∷ before, after, ap (λ l. c ∷ l) split, ap suc count))

module _ {W Client : Type 0}
    (call_tool : Client → String → Value → W → Result String (List ToolContent) × W) where
  -- In a valid registry, `execute` never takes a client that is not there. It runs the builtin
  -- function of the name; if there is none and the name is in the table of MCP tools, it asks the
  -- client that stands in the list of clients at the index kept with the tool, whose definition has that name, and passes
  -- the answer on; if it is in neither, it returns the error, and the name is in the list for the model
  -- only if it is that of an operator's tool.
  pub execute_routes :
      (reg : Registry W Client) (name : String) (arguments : Value) (w : W)
      → IsValid reg
      → ((func : Value → W → Result String ToolOutput × W) × (get name reg.builtins ≡ some func)
          × (execute call_tool name arguments reg w ≡ some (func arguments w)))
        ⊎ ((idx : ℕ) × (d : ToolDefinition) × (client : Client) × (get name reg.builtins ≡ none)
            × (get name reg.mcp_tools ≡ some (idx, d))
            × (d.function.name ≡ name)
            × StandsAt reg.mcp_clients idx client
            × (execute call_tool name arguments reg w
                ≡ some (
                  map_ok collapse ((call_tool client name arguments w).0),
                  (call_tool client name arguments w).1,
                )))
        ⊎ ((get name reg.builtins ≡ none)
            × (get name reg.mcp_tools ≡ none)
            × (execute call_tool name arguments reg w
                ≡ some (err (push_str "unknown tool: " name), w))
            × (includes (names_of (definitions reg)) name ≡ is_acp_tool name reg))
  unfolding execute is_acp_tool
  execute_routes reg name arguments w v = elim (Option-cases (get name reg.builtins)) [
    | inr (func, e) ↦ inl (func, e, rw e refl)
    | inl e ↦ elim (Option-cases (get name reg.mcp_tools)) [
      | inr ((idx, d), f) ↦
          let bound = length reg.mcp_clients in
          let (client, g, stands) =
            client_at-some reg.mcp_clients idx
              (Entries-client bound reg.mcp_tools name (idx, d) v.mcp_entries f) in
          inr (
            inl (
              idx,
              d,
              client,
              e,
              f,
              sym (Entries-named bound reg.mcp_tools name (idx, d) v.mcp_entries f),
              stands,
              rw (e, f, g) refl,
            ))
      | inl f ↦ inr (
          inr (
            e,
            f,
            rw (e, f) refl,
            definitions-includes reg name
                ∙ ground (
                  arith,
                  v.acp_agrees name,
                  v.builtins_agree name,
                  Entries-agree (length reg.mcp_clients) reg.mcp_tools name v.mcp_entries,
                ),
          ))
    ]
  ]
