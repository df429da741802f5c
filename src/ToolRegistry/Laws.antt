-- ===== src/ToolRegistry/Laws.antt =====
-- loop/src/tools/registry.rs: the invariant of the registry, and that a tool shown is a tool that runs.
-- Every entry is under the name of its definition, and its client is one of the first `bound`.
use overacp.Json.{Value}
use overacp.Prelude.Map.{Map, get, get-insert, insert, remove}
use overacp.Prelude.Names.{includes}
use overacp.Prelude.Result.{Result, err, ok}
use overacp.Prelude.{
  Bool, Bool-cases, List, Option, String, [], ap, arith, false, if◌then◌else◌, inl, inr, is_some,
  length, length-append, nat_eq, none, refl, same_iff, some, string_eq, sym, true, ℕ, ◌++◌, ◌<◌,
  ◌==◌, ◌||◌, ◌∙◌, ◌∷◌, ◌≡◌, ◌≤◌,
}
use overacp.ToolRegistry.Builtins.{BuiltinTools, new, register_builtins}
use overacp.ToolRegistry.Definitions.{includes-names-snoc, insert_name-includes, names_of}
use overacp.ToolRegistry.{
  Registry, connect_mcp, definition, insert_mcp_tools, mcp_definitions, push_acp_tools, register,
  set_acp_tools,
}
use overacp.Turn.Invariant.{if_kept}
use overacp.Turn.{ToolDefinition, ToolOutput}

abbrev pub Entries : ℕ → Map String (ℕ × ToolDefinition) → Type 0
Entries bound [] = Unit
Entries bound ((name, (idx, d)) ∷ rest) =
    ((name ≡ d.function.name) × (idx < bound)) × Entries bound rest

Entries-weaken : (a b : ℕ) (m : Map String (ℕ × ToolDefinition)) → a ≤ b → Entries a m → Entries b m
Entries-weaken a b [] le h = tt
Entries-weaken a b ((name, (idx, d)) ∷ rest) le ((named, small), h) =
    ((named, omega arith), Entries-weaken a b rest le h)

Entries-remove :
    (bound : ℕ) (n : String) (m : Map String (ℕ × ToolDefinition))
    → Entries bound m
    → Entries bound (remove n m)
unfolding remove
Entries-remove bound n [] h = tt
Entries-remove bound n ((name, (idx, d)) ∷ rest) (here, h) =
    let kept = Entries-remove bound n rest h in
    if_kept (Entries bound) (name == n) _ _ kept (here, kept)

Entries-insert_mcp_tools :
    (bound idx : ℕ) (defs : List ToolDefinition) (m : Map String (ℕ × ToolDefinition))
    → idx < bound
    → Entries bound m
    → Entries bound (insert_mcp_tools idx defs m)
unfolding insert_mcp_tools insert
Entries-insert_mcp_tools bound idx [] m small h = h
Entries-insert_mcp_tools bound idx (d ∷ defs) m small h =
    Entries-insert_mcp_tools bound idx defs (insert d.function.name (idx, d) m) small
      ((refl, small), Entries-remove bound d.function.name m h)

pub Entries-agree :
    (bound : ℕ) (m : Map String (ℕ × ToolDefinition)) (n : String)
    → Entries bound m
    → is_some (get n m) ≡ includes (names_of (mcp_definitions m)) n
unfolding get
Entries-agree bound [] n h = refl
Entries-agree bound ((name, (idx, d)) ∷ rest) n ((named, small), h) =
    rw named (ground (arith, Entries-agree bound rest n h))

pub Entries-named :
    (bound : ℕ) (m : Map String (ℕ × ToolDefinition)) (n : String) (p : ℕ × ToolDefinition)
    → Entries bound m
    → get n m ≡ some p
    → n ≡ p.1.function.name
unfolding get
Entries-named bound [] n p h e = absurd (ground arith)
Entries-named bound ((name, (idx, d)) ∷ rest) n p ((named, small), h) e =
    elim (Bool-cases (name == n)) [
      | inl b ↦ ground (arith, (same_iff name n).0 b)
      | inr b ↦ Entries-named bound rest n p h (ground arith)
    ]

pub Entries-client :
    (bound : ℕ) (m : Map String (ℕ × ToolDefinition)) (n : String) (p : ℕ × ToolDefinition)
    → Entries bound m
    → get n m ≡ some p
    → p.0 < bound
unfolding get
Entries-client bound [] n p h e = absurd (ground arith)
Entries-client bound ((name, (idx, d)) ∷ rest) n p ((named, small), h) e =
    elim (Bool-cases (name == n)) [
      | inl b ↦ ground arith
      | inr b ↦ Entries-client bound rest n p h (ground arith)
    ]

is_some-if :
    {A : Type 0} (b : Bool) (a : A) (o : Option A)
    → is_some (if b then some a else o) ≡ (is_some o || b)
is_some-if true a none = refl
is_some-if true a (some x) = refl
is_some-if false a none = refl
is_some-if false a (some x) = refl

module _ {W Client : Type 0} where
  -- The tables agree with the definitions, and every tool of an MCP server has its client.
  pub record IsValid (reg : Registry W Client) : Type 0 where
    pub acp_agrees : (n : String) → includes reg.acp_tools n ≡ includes (names_of reg.acp_defs) n
    pub builtins_agree :
        (n : String) → is_some (get n reg.builtins) ≡ includes (names_of reg.builtin_defs) n
    pub mcp_entries : Entries (length reg.mcp_clients) reg.mcp_tools

  register-IsValid :
      (name : String) (func : Value → W → Result String ToolOutput × W) (parameters : Value)
      (description : String) (reg : Registry W Client)
      → IsValid reg
      → IsValid (register name func parameters description reg)
  unfolding register
  register-IsValid name func parameters description reg v = record {
    acp_agrees = v.acp_agrees;
    builtins_agree = λ n.
        ap is_some (get-insert name n func reg.builtins)
        ∙ is_some-if (name == n) func (get n reg.builtins)
        ∙ ap (λ b. b || (name == n)) (v.builtins_agree n)
        ∙ sym (includes-names-snoc reg.builtin_defs (definition name description parameters) n);
    mcp_entries = v.mcp_entries;
  }

  pub connect_mcp-IsValid :
      (client : Client) (answer : Result String (List ToolDefinition)) (reg : Registry W Client)
      → IsValid reg
      → IsValid ((connect_mcp client answer reg).1)
  unfolding connect_mcp
  connect_mcp-IsValid client (err e) reg v = v
  connect_mcp-IsValid client (ok defs) reg v = record {
    acp_agrees = v.acp_agrees;
    builtins_agree = v.builtins_agree;
    mcp_entries =
        let longer = length-append reg.mcp_clients (client ∷ []) in
        Entries-insert_mcp_tools (length (reg.mcp_clients ++ client ∷ [])) (length reg.mcp_clients)
          defs reg.mcp_tools (ground (arith, longer))
          (Entries-weaken (length reg.mcp_clients) (length (reg.mcp_clients ++ client ∷ []))
            reg.mcp_tools (ground (arith, longer)) v.mcp_entries);
  }

  push_acp_tools-IsValid :
      (defs : List ToolDefinition) (reg : Registry W Client)
      → IsValid reg
      → IsValid (push_acp_tools defs reg)
  unfolding push_acp_tools
  push_acp_tools-IsValid [] reg v = v
  push_acp_tools-IsValid (d ∷ defs) reg v = push_acp_tools-IsValid defs _ (record {
    acp_agrees = λ n.
        insert_name-includes d.function.name n reg.acp_tools
        ∙ ap (λ b. b || (d.function.name == n)) (v.acp_agrees n)
        ∙ sym (includes-names-snoc reg.acp_defs d n);
    builtins_agree = v.builtins_agree;
    mcp_entries = v.mcp_entries;
  })

  pub set_acp_tools-IsValid :
      (defs : List ToolDefinition) (reg : Registry W Client)
      → IsValid reg
      → IsValid (set_acp_tools defs reg)
  unfolding set_acp_tools
  set_acp_tools-IsValid defs reg v = push_acp_tools-IsValid defs _ (record {
    acp_agrees = λ n. refl;
    builtins_agree = v.builtins_agree;
    mcp_entries = v.mcp_entries;
  })

  pub new-IsValid : (tools : BuiltinTools W) → IsValid (new {W = W} {Client = Client} tools)
  unfolding new register_builtins get
  new-IsValid tools = register-IsValid _ _ _ _ _ (
      register-IsValid _ _ _ _ _ (
        register-IsValid _ _ _ _ _ (
          register-IsValid _ _ _ _ _ (
            register-IsValid _ _ _ _ _ (
              register-IsValid _ _ _ _ _ (record {
                acp_agrees = λ n. refl;
                builtins_agree = λ n. refl;
                mcp_entries = tt;
              }))))))
