-- ===== src/Turn/Turns.antt =====
-- loop/src/agentic_loop.rs: the history after the model's message, and at the end of a turn.
use overacp.Llm.Compaction.{insert_calls}
use overacp.Llm.Sse.{StopReason, StreamedResponse}
use overacp.Llm.Types.{Message, ToolCall, assistant}
use overacp.Prelude.Names.{distinct}
use overacp.Prelude.Result.{Result, err, ok}
use overacp.Prelude.{
  List, Option, String, [], ap, none, refl, some, subst, sym, true, ℕ, ◌++◌, ◌∙◌, ◌∷◌, ◌≡◌,
}
use overacp.Turn.Calls.{answer, push_message}
use overacp.Turn.History.{
  check_quota-OfHistory, compaction-OfHistory, finish-OfHistory, heartbeat-OfHistory,
  nudge-OfHistory, say-OfHistory, send_deltas-OfHistory, silence-OfHistory, timeout-OfHistory,
  usage-OfHistory, wind_down-OfHistory,
}
use overacp.Turn.Invariant.{Kept, run_loop_kept}
use overacp.Turn.Open.{SameOpen, insert_calls-SameOpen}
use overacp.Turn.Pairing.{
  AnswersWell, OpenPaired, Paired, answers_all-snoc, handle_calls-Paired, ids_called, pending-snoc,
}
use overacp.Turn.Run.{
  after_answer, call_model, finished, handle_answer, run, run_loop, start, track_silence,
  track_usage,
}
use overacp.Turn.{
  AcpService, Codec, LoopConfig, LoopError, LoopState, Round, ToolDefinition, Tools, state_of,
}

assistant-OpenPaired :
    (ms : List Message) (m : Message) (calls : List ToolCall)
    → m.role ≡ assistant
    → m.tool_calls ≡ some calls
    → Paired ms
    → OpenPaired (ms ++ m ∷ []) calls
assistant-OpenPaired ms m calls is_assistant e (h, k) = (
  answers_all-snoc [] ms m h (rw is_assistant refl),
  subst (λ ids. SameOpen ids calls)
      (sym (pending-snoc [] ms m ∙ rw is_assistant (rw e (ap (insert_calls calls) k))))
      (insert_calls-SameOpen calls),
)

assistant-Paired :
    (ms : List Message) (m : Message)
    → m.role ≡ assistant
    → m.tool_calls ≡ none
    → Paired ms
    → Paired (ms ++ m ∷ [])
assistant-Paired ms m is_assistant e (h, k) = (
  answers_all-snoc [] ms m h (rw is_assistant refl),
  pending-snoc [] ms m ∙ rw is_assistant (rw e k),
)

module _ {S R Cost : Type 0} (service : AcpService S Cost) (registry : Tools R) (codec : Codec)
    (add_cost : Cost → Cost → Cost) (config : LoopConfig) (rounds : ℕ → Round Cost) where
  after_answer-Paired :
      (m : Message) (calls : Option (List ToolCall)) (reason : Option StopReason)
      (st : LoopState S R Cost)
      → m.tool_calls ≡ calls
      → m.role ≡ assistant
      → distinct (ids_called calls) ≡ true
      → Paired st.messages
      → Paired (
          (state_of (
            after_answer service registry codec add_cost config calls reason
              (push_message m st))).messages)
  unfolding state_of
  after_answer-Paired m (some calls) reason st e is_assistant apart h =
      handle_calls-Paired service registry codec calls (push_message m st) apart
        (assistant-OpenPaired st.messages m calls is_assistant e h)
  after_answer-Paired m none reason st e is_assistant apart h =
      finish-OfHistory service registry codec add_cost config rounds reason (push_message m st)
        (assistant-Paired st.messages m is_assistant e h)

  answer-OfHistory :
      (round : Round Cost) (ms : List Message) (tools : List ToolDefinition)
      (r : Result String (StreamedResponse Cost)) (st : LoopState S R Cost)
      → AnswersWell round
      → (round.stream_completion ms tools).1 ≡ r
      → Paired st.messages
      → Paired ((state_of (handle_answer service registry codec add_cost config r st)).messages)
  unfolding handle_answer
  answer-OfHistory round ms tools (err x) st well e h =
      say-OfHistory service registry codec add_cost config rounds _ st h
  answer-OfHistory round ms tools (ok streamed) st well e h =
      let (is_assistant, apart) = well ms tools streamed e in
      let tracked = track_usage service registry codec add_cost config streamed.usage st in
      after_answer-Paired streamed.message streamed.message.tool_calls streamed.finish_reason
        (track_silence service registry codec add_cost config streamed.message tracked) refl
        is_assistant apart
        (silence-OfHistory service registry codec add_cost config rounds streamed.message tracked
          (usage-OfHistory service registry codec add_cost config rounds streamed.usage st h))

  model-OfHistory :
      (round : Round Cost) (st : LoopState S R Cost)
      → AnswersWell round
      → Paired st.messages
      → Paired ((state_of (call_model service registry codec add_cost config round st)).messages)
  unfolding call_model
  model-OfHistory round st well h =
      let (deltas, answer) = round.stream_completion st.messages (registry.definitions st.tools) in
      answer-OfHistory round st.messages (registry.definitions st.tools) answer _ well refl
        (send_deltas-OfHistory service registry codec add_cost config rounds deltas st h)

  history_kept :
      ((n : ℕ) → AnswersWell (rounds n))
      → Kept service registry codec add_cost config rounds (λ st. Paired st.messages)
  history_kept well = record {
    timeout_kept =
        λ n. timeout-OfHistory service registry codec add_cost config rounds ((rounds n).elapsed);
    heartbeat_kept =
        λ n. heartbeat-OfHistory service registry codec add_cost config rounds ((rounds n).beat);
    quota_kept = check_quota-OfHistory service registry codec add_cost config rounds;
    compaction_kept = λ n.
        compaction-OfHistory service registry codec add_cost config rounds ((rounds n).complete);
    wind_down_kept = wind_down-OfHistory service registry codec add_cost config rounds;
    nudge_kept = nudge-OfHistory service registry codec add_cost config rounds;
    model_kept = λ n st. model-OfHistory (rounds n) st (well n);
  }

  finished-Paired :
      (p : Result LoopError Unit × LoopState S R Cost)
      → Paired ((p.1).messages)
      → Paired (((finished service registry codec add_cost config p).1).messages)
  finished-Paired (ok u, st) h = h
  finished-Paired (err e, st) h = h

  -- If every streamed message has the role of an assistant and calls with different ids, and in the
  -- history at the start every tool's message answers an open call and no call is left open, then the
  -- same is true of the history that `run` leaves, however it ends, compactions included: every call
  -- of the model has got its answer, and no answer has lost its call.
  pub run-Paired :
      (no_cost : Cost) (acp : S) (tools : R) (messages : List Message)
      → ((n : ℕ) → AnswersWell (rounds n))
      → Paired messages
      → Paired (
          (run service registry codec add_cost config no_cost rounds acp tools messages).1.messages)
  unfolding run start
  run-Paired no_cost acp tools messages well h =
      let begun = start no_cost acp tools messages in
      finished-Paired
        (run_loop service registry codec add_cost config config.max_iterations rounds begun)
        (run_loop_kept service registry codec add_cost config rounds (λ st. Paired st.messages)
          (history_kept well) config.max_iterations begun h)
