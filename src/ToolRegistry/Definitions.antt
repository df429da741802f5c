-- ===== src/ToolRegistry/Definitions.antt =====
-- loop/src/tools/registry.rs: which definitions the model is given.
use mathlib.Core.List.{append-nil, append_assoc}
use overacp.Prelude.Names.{distinct, includes}
use overacp.Prelude.{
  Bool-cases, List, String, [], ap, arith, false, if◌then◌else◌, inl, inr, map, nat_eq, refl,
  same_iff, string_eq, subst, sym, true, ◌++◌, ◌==◌, ◌||◌, ◌∙◌, ◌∷◌, ◌≡◌,
}
use overacp.ToolRegistry.{
  Registry, add_definition, add_definitions, all_definitions, definitions, insert_name,
  mcp_definitions,
}
use overacp.Turn.{ToolDefinition}

abbrev pub names_of : List ToolDefinition → List String
names_of ds = map (λ d. d.function.name) ds

includes-snoc :
    (xs : List String) (i n : String) → includes (xs ++ i ∷ []) n ≡ (includes xs n || (i == n))
includes-snoc [] i n = ground arith
includes-snoc (x ∷ xs) i n = ground (arith, includes-snoc xs i n)

distinct-snoc :
    (xs : List String) (i : String)
    → distinct xs ≡ true
    → includes xs i ≡ false
    → distinct (xs ++ i ∷ []) ≡ true
unfolding distinct
distinct-snoc [] i h k = refl
distinct-snoc (x ∷ xs) i h k =
    ground (arith, distinct-snoc xs i, includes-snoc xs i x, same_iff x i, same_iff i x)

names-snoc :
    (ds : List ToolDefinition) (d : ToolDefinition)
    → names_of (ds ++ d ∷ []) ≡ names_of ds ++ d.function.name ∷ []
names-snoc [] d = refl
names-snoc (x ∷ ds) d = ap (λ l. x.function.name ∷ l) (names-snoc ds d)

-- The names_of seen are those of the definitions collected.
abbrev Seen : List String × List ToolDefinition → Type 0
Seen (seen, defs) = (n : String) → includes seen n ≡ includes (names_of defs) n

pub includes-names-snoc :
    (ds : List ToolDefinition) (d : ToolDefinition) (n : String)
    → includes (names_of (ds ++ d ∷ [])) n ≡ (includes (names_of ds) n || (d.function.name == n))
includes-names-snoc ds d n =
    ap (λ l. includes l n) (names-snoc ds d) ∙ includes-snoc (names_of ds) d.function.name n

-- The two ways in which a definition is added.
add_definition-either :
    (P : List String × List ToolDefinition → Type 0) (d : ToolDefinition) (seen : List String)
    (defs : List ToolDefinition)
    → (includes seen d.function.name ≡ true → P (seen, defs))
    → (includes seen d.function.name ≡ false → P (d.function.name ∷ seen, defs ++ d ∷ []))
    → P (add_definition d (seen, defs))
add_definition-either P d seen defs h k = elim (Bool-cases (includes seen d.function.name)) [
  | inl e ↦
      subst (λ b. P (if b then (seen, defs) else (d.function.name ∷ seen, defs ++ d ∷ []))) (sym e)
        (h e)
  | inr e ↦
      subst (λ b. P (if b then (seen, defs) else (d.function.name ∷ seen, defs ++ d ∷ []))) (sym e)
        (k e)
]

add_definition-Seen :
    (d : ToolDefinition) (acc : List String × List ToolDefinition)
    → Seen acc
    → Seen (add_definition d acc)
add_definition-Seen d (seen, defs) same =
    add_definition-either Seen d seen defs (λ e. same)
      (λ e n. ground (arith, same n, includes-names-snoc defs d n))

add_definition-includes :
    (d : ToolDefinition) (seen : List String) (defs : List ToolDefinition) (n : String)
    → Seen (seen, defs)
    → includes (names_of ((add_definition d (seen, defs)).1)) n
      ≡ (includes (names_of defs) n || (d.function.name == n))
add_definition-includes d seen defs n same =
    add_definition-either
      (λ (acc : List String × List ToolDefinition).
        includes (names_of (acc.1)) n ≡ (includes (names_of defs) n || (d.function.name == n)))
      d seen defs (λ e. ground (arith, same d.function.name, same_iff d.function.name n))
      (λ e. includes-names-snoc defs d n)

add_definition-distinct :
    (d : ToolDefinition) (seen : List String) (defs : List ToolDefinition)
    → Seen (seen, defs)
    → distinct (names_of defs) ≡ true
    → distinct (names_of ((add_definition d (seen, defs)).1)) ≡ true
add_definition-distinct d seen defs same h =
    add_definition-either
      (λ (acc : List String × List ToolDefinition). distinct (names_of (acc.1)) ≡ true) d seen defs
      (λ e. h)
      (λ e.
        ap distinct (names-snoc defs d)
        ∙ distinct-snoc (names_of defs) d.function.name h (sym (same d.function.name) ∙ e))

-- The two later loops of `definitions`.
add_definitions-laws :
    (ds : List ToolDefinition) (acc : List String × List ToolDefinition) (n : String)
    → Seen acc
    → Seen (add_definitions ds acc)
      × (includes (names_of ((add_definitions ds acc).1)) n
          ≡ (includes (names_of (acc.1)) n || includes (names_of ds) n))
unfolding add_definitions
add_definitions-laws [] acc n same = (same, ground arith)
add_definitions-laws (d ∷ ds) (seen, defs) n same =
    let (seen_after, found) =
      add_definitions-laws ds (add_definition d (seen, defs)) n
        (add_definition-Seen d (seen, defs) same) in
    (seen_after, ground (arith, found, add_definition-includes d seen defs n same))

add_definitions-distinct :
    (ds : List ToolDefinition) (acc : List String × List ToolDefinition)
    → Seen acc
    → distinct (names_of (acc.1)) ≡ true
    → distinct (names_of ((add_definitions ds acc).1)) ≡ true
unfolding add_definitions
add_definitions-distinct [] acc same h = h
add_definitions-distinct (d ∷ ds) (seen, defs) same h =
    add_definitions-distinct ds (add_definition d (seen, defs))
      (add_definition-Seen d (seen, defs) same) (add_definition-distinct d seen defs same h)

pub insert_name-includes :
    (s n : String) (seen : List String)
    → includes ((insert_name s seen).0) n ≡ (includes seen n || (s == n))
insert_name-includes s n seen = elim (Bool-cases (includes seen s)) [
  | inl e ↦ rw e (ground (arith, same_iff s n))
  | inr e ↦ rw e (ground arith)
]

all_definitions-Seen :
    (ds : List ToolDefinition) (seen : List String) (defs : List ToolDefinition)
    → Seen (seen, defs)
    → Seen (all_definitions ds (seen, defs)) × ((all_definitions ds (seen, defs)).1 ≡ defs ++ ds)
unfolding all_definitions
all_definitions-Seen [] seen defs same = (same, sym (append-nil defs))
all_definitions-Seen (d ∷ ds) seen defs same =
    let (seen_after, all_there) =
      all_definitions-Seen ds ((insert_name d.function.name seen).0) (defs ++ d ∷ []) (λ n.
        insert_name-includes d.function.name n seen
        ∙ ap (λ b. b || (d.function.name == n)) (same n)
        ∙ sym (includes-names-snoc defs d n)) in
    (seen_after, all_there ∙ append_assoc defs (d ∷ []) ds)

module _ {W Client : Type 0} (reg : Registry W Client) where
  -- A name is in the list for the model exactly when it is the name of an operator's tool, of a tool
  -- of an MCP server or of a builtin tool.
  pub definitions-includes :
      (n : String)
      → includes (names_of (definitions reg)) n ≡ (
          includes (names_of reg.acp_defs) n
          || includes (names_of (mcp_definitions reg.mcp_tools)) n
          || includes (names_of reg.builtin_defs) n)
  unfolding definitions
  definitions-includes n =
      let acc = all_definitions reg.acp_defs ([], []) in
      let (seen, all_there) = all_definitions-Seen reg.acp_defs [] [] (λ i. refl) in
      let mcp = add_definitions-laws (mcp_definitions reg.mcp_tools) acc n seen in
      let builtin =
        add_definitions-laws reg.builtin_defs (add_definitions (mcp_definitions reg.mcp_tools) acc)
          n mcp.0 in
      ground (arith, mcp.1, builtin.1, ap (λ ds. includes (names_of ds) n) all_there)

  -- If the operator's list gives each name once, then so does the list for the model.
  pub definitions-distinct :
      distinct (names_of reg.acp_defs) ≡ true → distinct (names_of (definitions reg)) ≡ true
  unfolding definitions
  definitions-distinct h =
      let acc = all_definitions reg.acp_defs ([], []) in
      let (seen, all_there) = all_definitions-Seen reg.acp_defs [] [] (λ i. refl) in
      add_definitions-distinct reg.builtin_defs
        (add_definitions (mcp_definitions reg.mcp_tools) acc)
        ((add_definitions-laws (mcp_definitions reg.mcp_tools) acc "" seen).0)
        (add_definitions-distinct (mcp_definitions reg.mcp_tools) acc seen
          (ap (λ ds. distinct (names_of ds)) all_there ∙ h))
