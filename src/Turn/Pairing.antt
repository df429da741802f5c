-- ===== src/Turn/Pairing.antt =====
-- loop/src/agentic_loop.rs: the history of a turn. Every call of the model has one answer, which comes
-- after it, at the start of every iteration and at the end of the turn.
-- Every tool's message answers a call that is open, and no call is open at the end.
use overacp.Json.{Value}
use overacp.Llm.Compaction.Closed.{pending-append}
use overacp.Llm.Compaction.Pairs.{answers_all, answers_open}
use overacp.Llm.Compaction.{by_role, pending}
use overacp.Llm.Sse.{StreamedResponse}
use overacp.Llm.Types.{Content, Message, ToolCall, assistant}
use overacp.Prelude.Names.{distinct}
use overacp.Prelude.Result.{Result, ok}
use overacp.Prelude.Texts.{push_str}
use overacp.Prelude.{
  List, Option, String, [], ap, arith, beq_refl, none, refl, some, subst, sym, true, ◌++◌, ◌∙◌, ◌∷◌,
  ◌≡◌,
}
use overacp.Turn.Calls.{
  announce, answer, handle_arguments, handle_call, handle_calls, result_content, run_tool,
  tool_message,
}
use overacp.Turn.Open.{SameOpen, SameOpen-nil, call_ids, distinct-tail, remove_id-SameOpen}
use overacp.Turn.Outputs.{ParsedArguments, arguments_failed, arguments_ok, system_msg}
use overacp.Turn.{AcpService, Codec, LoopState, Round, ToolDefinition, ToolOutput, Tools}

abbrev pub Paired : List Message → Type 0
Paired ms = (answers_all [] ms ≡ true) × (pending ms [] ≡ [])

abbrev pub OpenPaired : List Message → List ToolCall → Type 0
OpenPaired ms calls = (answers_all [] ms ≡ true) × SameOpen (pending ms []) calls

abbrev pub ids_called : Option (List ToolCall) → List String
ids_called none = []
ids_called (some calls) = call_ids calls

-- What the model is relied on for: its message has the role of an assistant, and the ids of the
-- calls in one message are different.
abbrev pub AnswersWell : {Cost : Type 0} → Round Cost → Type 0
AnswersWell {Cost} round =
    (ms : List Message) (tools : List ToolDefinition) (streamed : StreamedResponse Cost)
    → (round.stream_completion ms tools).1 ≡ ok streamed
    → (streamed.message.role ≡ assistant)
      × (distinct (ids_called streamed.message.tool_calls) ≡ true)

pub answers_all-snoc :
    (calls : List String) (ms : List Message) (m : Message)
    → answers_all calls ms ≡ true
    → answers_open m.role m.tool_call_id (pending ms calls) ≡ true
    → answers_all calls (ms ++ m ∷ []) ≡ true
unfolding answers_all pending
answers_all-snoc calls [] m h k = rw k refl
answers_all-snoc calls (x ∷ ms) m h k =
    ground (arith, answers_all-snoc (by_role x.role x calls) ms m)

pub pending-snoc :
    (calls : List String) (ms : List Message) (m : Message)
    → pending (ms ++ m ∷ []) calls ≡ by_role m.role m (pending ms calls)
unfolding pending
pending-snoc calls ms m = pending-append calls ms (m ∷ [])

-- A system message changes nothing.
pub system_msg-Paired :
    (ms : List Message) (t : String) → Paired ms → Paired (ms ++ system_msg t ∷ [])
unfolding system_msg
system_msg-Paired ms t (h, k) =
    (answers_all-snoc [] ms (system_msg t) h refl, pending-snoc [] ms (system_msg t) ∙ k)

-- The answer to the first of the open calls.
tool_message-OpenPaired :
    (ms : List Message) (tc : ToolCall) (calls : List ToolCall) (c : Content)
    → distinct (call_ids (tc ∷ calls)) ≡ true
    → OpenPaired ms (tc ∷ calls)
    → OpenPaired (ms ++ tool_message tc.id c ∷ []) calls
unfolding tool_message
tool_message-OpenPaired ms tc calls c apart (h, same) = (
  answers_all-snoc [] ms (tool_message tc.id c) h (same tc.id ∙ rw (beq_refl tc.id) refl),
  subst (λ ids. SameOpen ids calls) (sym (pending-snoc [] ms (tool_message tc.id c)))
      (remove_id-SameOpen tc calls (pending ms []) apart same),
)

module _ {S R Cost : Type 0} (service : AcpService S Cost) (registry : Tools R)
    (codec : Codec) where
  run_tool-messages :
      (tc : ToolCall) (args : Value) (st : LoopState S R Cost)
      → (run_tool service registry codec tc args st).1.messages ≡ st.messages
  unfolding run_tool
  run_tool-messages tc args st = ground arith

  answer-messages :
      (tc : ToolCall) (p : Result String ToolOutput × LoopState S R Cost) (ms : List Message)
      → (p.1).messages ≡ ms
      → (c : Content) × ((answer service registry codec tc (result_content (p.0)) (p.1)).messages
          ≡ ms ++ tool_message tc.id c ∷ [])
  answer-messages tc (r, after) ms e =
      ((result_content r).0, ap (λ l. l ++ tool_message tc.id ((result_content r).0) ∷ []) e)

  handle_arguments-messages :
      (tc : ToolCall) (p : ParsedArguments) (st : LoopState S R Cost)
      → (c : Content) × ((handle_arguments service registry codec tc p st).messages
          ≡ st.messages ++ tool_message tc.id c ∷ [])
  unfolding handle_arguments announce
  handle_arguments-messages tc (arguments_failed n m) st = (_, refl)
  handle_arguments-messages tc (arguments_ok args) st =
      let announced =
        announce service registry codec (push_str "Running tool: " tc.function.name) tc args st in
      answer-messages tc (run_tool service registry codec tc args announced) st.messages
        (run_tool-messages tc args announced)

  pub handle_calls-Paired :
      (calls : List ToolCall) (st : LoopState S R Cost)
      → distinct (call_ids calls) ≡ true
      → OpenPaired st.messages calls
      → Paired ((handle_calls service registry codec calls st).messages)
  unfolding handle_calls handle_call
  handle_calls-Paired [] st apart (h, same) = (h, SameOpen-nil _ same)
  handle_calls-Paired (tc ∷ calls) st apart h =
      let (c, e) = handle_arguments-messages tc _ st in
      handle_calls-Paired calls _ (distinct-tail tc calls apart) (
        subst (λ ms. OpenPaired ms calls) (sym e)
          (tool_message-OpenPaired st.messages tc calls c apart h))
