-- ===== src/Llm/Stream/Calls.antt =====
-- loop/src/llm/client.rs: the streamed pieces of one tool call end in that call, in their order.
-- The call at an index, blank where there is none.
use overacp.Llm.Stream.{
  FunctionCallDelta, PartialToolCall, ToolCallDelta, accumulate_all, accumulate_tool_call, appended,
  apply_delta, blank, blanks, pad, update_at, with_function,
}
use overacp.Prelude.{
  Bool, List, Option, String, [], ap, arith, false, if◌then◌else◌, length, length-append, nat_beq,
  none, refl, some, suc, true, zero, ℕ, ◌++◌, ◌-◌, ◌<◌, ◌∙◌, ◌∷◌, ◌≡◌,
}

abbrev pub call_at : ℕ → List PartialToolCall → PartialToolCall
call_at i [] = blank
call_at zero (c ∷ calls) = c
call_at (suc i) (c ∷ calls) = call_at i calls

call_at-blanks : (i n : ℕ) → call_at i (blanks n) ≡ blank
call_at-blanks i zero = refl
call_at-blanks zero (suc n) = refl
call_at-blanks (suc i) (suc n) = call_at-blanks i n

call_at-append_blanks :
    (i n : ℕ) (calls : List PartialToolCall) → call_at i (calls ++ blanks n) ≡ call_at i calls
call_at-append_blanks i n [] = call_at-blanks i n
call_at-append_blanks zero n (c ∷ calls) = refl
call_at-append_blanks (suc i) n (c ∷ calls) = call_at-append_blanks i n calls

call_at-update_at :
    (i index : ℕ) (f : PartialToolCall → PartialToolCall) (calls : List PartialToolCall)
    → index < length calls
    → call_at i (update_at index f calls)
      ≡ (if nat_beq index i then f (call_at i calls) else call_at i calls)
call_at-update_at i index f [] h = absurd (omega arith)
call_at-update_at zero zero f (c ∷ calls) h = refl
call_at-update_at (suc i) zero f (c ∷ calls) h = ground arith
call_at-update_at zero (suc index) f (c ∷ calls) h = ground arith
call_at-update_at (suc i) (suc index) f (c ∷ calls) h =
    ground (arith, call_at-update_at i index f calls (omega arith))

length-blanks : (n : ℕ) → length (blanks n) ≡ n
length-blanks zero = refl
length-blanks (suc n) = omega (arith, length-blanks n)

call_at-accumulate_tool_call :
    (i : ℕ) (calls : List PartialToolCall) (delta : ToolCallDelta)
    → call_at i (accumulate_tool_call calls delta)
      ≡ (if nat_beq delta.index i then apply_delta delta (call_at i calls) else call_at i calls)
unfolding accumulate_tool_call pad
call_at-accumulate_tool_call i calls delta =
    call_at-update_at i delta.index (apply_delta delta) (pad delta.index calls) (
      omega (
        arith,
        length-append calls (blanks (suc delta.index - length calls)),
        length-blanks (suc delta.index - length calls),
      ))
    ∙ ap (λ c. if nat_beq delta.index i then apply_delta delta c else c)
        (call_at-append_blanks i (suc delta.index - length calls) calls)

-- The deltas of one index, applied to one call in the order of the stream.
unfoldable pub apply_all : ℕ → PartialToolCall → List ToolCallDelta → PartialToolCall
apply_all i c [] = c
apply_all i c (delta ∷ deltas) =
    apply_all i (if nat_beq delta.index i then apply_delta delta c else c) deltas

-- Whatever the order in which the pieces of several calls are interleaved, and whatever gaps their
-- indices leave, the call at each index is what its own pieces make of the call that was there.
pub call_at-accumulate_all :
    (i : ℕ) (calls : List PartialToolCall) (deltas : List ToolCallDelta)
    → call_at i (accumulate_all calls deltas) ≡ apply_all i (call_at i calls) deltas
unfolding accumulate_all apply_all
call_at-accumulate_all i calls [] = refl
call_at-accumulate_all i calls (delta ∷ deltas) =
    call_at-accumulate_all i (accumulate_tool_call calls delta) deltas
    ∙ ap (λ c. apply_all i c deltas) (call_at-accumulate_tool_call i calls delta)

abbrev piece_of : Option FunctionCallDelta → Option String
piece_of none = none
piece_of (some f) = f.arguments

-- The pieces of the arguments that one index has, put together.
unfoldable pub arguments_of : ℕ → String → List ToolCallDelta → String
arguments_of i s [] = s
arguments_of i s (delta ∷ deltas) =
    arguments_of i (if nat_beq delta.index i then appended s (piece_of delta.function) else s)
      deltas

arguments-with_function :
    (o : Option FunctionCallDelta) (c : PartialToolCall)
    → (with_function o c).arguments ≡ appended c.arguments (piece_of o)
arguments-with_function none c = refl
arguments-with_function (some f) c = refl

arguments-if :
    (b : Bool) (delta : ToolCallDelta) (c : PartialToolCall)
    → (if b then apply_delta delta c else c).arguments
      ≡ (if b then appended c.arguments (piece_of delta.function) else c.arguments)
unfolding apply_delta
arguments-if false delta c = refl
arguments-if true delta c = arguments-with_function delta.function _

arguments-apply_all :
    (i : ℕ) (c : PartialToolCall) (deltas : List ToolCallDelta)
    → (apply_all i c deltas).arguments ≡ arguments_of i c.arguments deltas
unfolding apply_all arguments_of
arguments-apply_all i c [] = refl
arguments-apply_all i c (delta ∷ deltas) =
    arguments-apply_all i (if nat_beq delta.index i then apply_delta delta c else c) deltas
    ∙ ap (λ s. arguments_of i s deltas) (arguments-if (nat_beq delta.index i) delta c)

-- From an empty list of calls, the arguments of the call at each index are the pieces that carry that
-- index, put together in the order of the stream.
pub arguments-accumulate_all :
    (i : ℕ) (deltas : List ToolCallDelta)
    → (call_at i (accumulate_all [] deltas)).arguments ≡ arguments_of i "" deltas
arguments-accumulate_all i deltas =
    ap (λ c. c.arguments) (call_at-accumulate_all i [] deltas) ∙ arguments-apply_all i blank deltas
