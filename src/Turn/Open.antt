-- ===== src/Turn/Open.antt =====
-- loop/src/agentic_loop.rs: which calls of a history are open while the calls of one message are
-- answered one after the other.
use overacp.Llm.Compaction.{insert_calls, remove_id}
use overacp.Llm.Types.{ToolCall}
use overacp.Prelude.Names.{distinct, includes}
use overacp.Prelude.{
  Bool-cases, List, String, [], ap, arith, beq_refl, false, if◌then◌else◌, inl, inr, map, nat_eq,
  refl, same_iff, string_eq, subst, true, ◌==◌, ◌||◌, ◌∙◌, ◌∷◌, ◌≡◌,
}

abbrev pub call_ids : List ToolCall → List String
call_ids calls = map (λ c. c.id) calls

includes-remove-same : (i : String) (ids : List String) → includes (remove_id i ids) i ≡ false
unfolding remove_id
includes-remove-same i [] = refl
includes-remove-same i (j ∷ ids) = ground (arith, includes-remove-same i ids)

includes-remove-other :
    (c i : String) (ids : List String)
    → (c == i) ≡ false
    → includes (remove_id c ids) i ≡ includes ids i
unfolding remove_id
includes-remove-other c i [] h = refl
includes-remove-other c i (j ∷ ids) h = elim (Bool-cases (j == c)) [
  | inl e ↦ rw e (rw ((same_iff j c).0 e) (rw h (includes-remove-other c i ids h)))
  | inr e ↦ rw e (ap (λ b. if j == i then true else b) (includes-remove-other c i ids h))
]

includes-insert :
    (calls : List ToolCall) (ids : List String) (i : String)
    → includes (insert_calls calls ids) i ≡ (includes (call_ids calls) i || includes ids i)
unfolding insert_calls
includes-insert [] ids i = refl
includes-insert (c ∷ calls) ids i = ground (arith, includes-insert calls (c.id ∷ ids) i)

-- The open calls are those that are still to be answered.
abbrev pub SameOpen : List String → List ToolCall → Type 0
SameOpen ids calls = (i : String) → includes ids i ≡ includes (call_ids calls) i

pub insert_calls-SameOpen : (calls : List ToolCall) → SameOpen (insert_calls calls []) calls
insert_calls-SameOpen calls i = ground (arith, includes-insert calls [] i)

pub remove_id-SameOpen :
    (c : ToolCall) (calls : List ToolCall) (ids : List String)
    → distinct (call_ids (c ∷ calls)) ≡ true
    → SameOpen ids (c ∷ calls)
    → SameOpen (remove_id c.id ids) calls
unfolding distinct
remove_id-SameOpen c calls ids apart same i = elim (Bool-cases (c.id == i)) [
  | inl e ↦
      subst (λ k. includes (remove_id c.id ids) k ≡ includes (call_ids calls) k)
        ((same_iff c.id i).0 e) (includes-remove-same c.id ids ∙ ground arith)
  | inr e ↦ includes-remove-other c.id i ids e ∙ same i ∙ rw e refl
]

pub SameOpen-nil : (ids : List String) → SameOpen ids [] → ids ≡ []
SameOpen-nil [] same = refl
SameOpen-nil (j ∷ ids) same = absurd (ground (arith, same j, beq_refl j))

pub distinct-tail :
    (c : ToolCall) (calls : List ToolCall)
    → distinct (call_ids (c ∷ calls)) ≡ true
    → distinct (call_ids calls) ≡ true
unfolding distinct
distinct-tail c calls h = ground arith
