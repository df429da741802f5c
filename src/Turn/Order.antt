-- ===== src/Turn/Order.antt =====
-- loop/src/agentic_loop.rs: in which order the frames of a turn are sent, whatever the service and the
-- model answer.
use overacp.Llm.Types.{Message, ToolCall}
use overacp.Prelude.Result.{Result, err, is_ok, ok}
use overacp.Prelude.{
  Bool, List, String, [], ap, arith, beq_refl, false, if◌then◌else◌, nat_eq, refl, string_eq, suc,
  true, ℕ, ◌&&◌, ◌==◌, ◌∷◌, ◌≡◌,
}
use overacp.Turn.Calls.{announce, answer, handle_arguments, handle_call, result_content, run_tool}
use overacp.Turn.Invariant.{if_kept}
use overacp.Turn.Outputs.{ParsedArguments, arguments_failed, arguments_ok}
use overacp.Turn.Recorded.{TurnEvent, bracketed, ends_turn, logging, turn_ended, turn_ends}
use overacp.Turn.Run.{finished, run, run_loop, start}
use overacp.Turn.Service.{ServiceKept, run_loop_service}
use overacp.Turn.{AcpService, Codec, LoopConfig, LoopError, LoopState, Round, ToolOutput, Tools}

module _ {S : Type 0} where
  abbrev NoEnd : S × List TurnEvent → Type 0
  NoEnd (s, log) = turn_ends log ≡ 0

  abbrev Bracketed : S × List TurnEvent → Type 0
  Bracketed (s, log) = bracketed log ≡ true

no_end-last : (log : List TurnEvent) → turn_ends log ≡ 0 → ends_turn log ≡ false
unfolding turn_ends
no_end-last [] h = refl
no_end-last (turn_ended ∷ log) h = absurd (omega arith)
no_end-last (_ ∷ log) h = refl

same_id : (i : String) (b : Bool) → b ≡ true → ((i == i) && b) ≡ true
same_id i b h = rw (beq_refl i) h

module _ {S R Cost : Type 0} (service : AcpService S Cost) (registry : Tools R)
    (codec : Codec) where
  handle_arguments-NoEnd :
      (tc : ToolCall) (p : ParsedArguments) (st : LoopState (S × List TurnEvent) R Cost)
      → NoEnd st.acp
      → NoEnd ((handle_arguments (logging service) registry codec tc p st).acp)
  unfolding handle_arguments run_tool announce logging turn_ends
  handle_arguments-NoEnd tc (arguments_failed n m) st h = h
  handle_arguments-NoEnd tc (arguments_ok args) st h =
      if_kept
        (λ (p : Result String ToolOutput × LoopState (S × List TurnEvent) R Cost).
          NoEnd ((answer (logging service) registry codec tc (result_content (p.0)) (p.1)).acp))
        (registry.is_acp_tool tc.function.name st.tools) _ _ h h

  handle_arguments-Bracketed :
      (tc : ToolCall) (p : ParsedArguments) (st : LoopState (S × List TurnEvent) R Cost)
      → Bracketed st.acp
      → Bracketed ((handle_arguments (logging service) registry codec tc p st).acp)
  unfolding handle_arguments run_tool announce logging bracketed
  handle_arguments-Bracketed tc (arguments_failed n m) st h = same_id tc.id _ h
  handle_arguments-Bracketed tc (arguments_ok args) st h =
      if_kept
        (λ (p : Result String ToolOutput × LoopState (S × List TurnEvent) R Cost).
          Bracketed ((answer (logging service) registry codec tc (result_content (p.0)) (p.1)).acp))
        (registry.is_acp_tool tc.function.name st.tools) _ _ (same_id tc.id _ h) (same_id tc.id _ h)

module _ {S R Cost : Type 0} (service : AcpService S Cost) (registry : Tools R) (codec : Codec)
    (add_cost : Cost → Cost → Cost) (config : LoopConfig) (rounds : ℕ → Round Cost) where
  NoEnd-kept : ServiceKept (logging service) registry codec add_cost config rounds NoEnd
  unfolding logging turn_ends handle_call
  NoEnd-kept = record {
    delta_kept = λ t s h. h;
    heartbeat_op_kept = λ s h. h;
    quota_check_kept = λ s h. h;
    quota_update_kept = λ a b s h. h;
    compacted_kept = λ t ms u s h. h;
    call_kept = λ tc st h. handle_arguments-NoEnd service registry codec tc _ st h;
  }

  Bracketed-kept : ServiceKept (logging service) registry codec add_cost config rounds Bracketed
  unfolding logging bracketed handle_call
  Bracketed-kept = record {
    delta_kept = λ t s h. h;
    heartbeat_op_kept = λ s h. h;
    quota_check_kept = λ s h. h;
    quota_update_kept = λ a b s h. h;
    compacted_kept = λ t ms u s h. h;
    call_kept = λ tc st h. handle_arguments-Bracketed service registry codec tc _ st h;
  }

  abbrev pub turn :
      Cost → S → R → List Message → Result LoopError Unit × LoopState (S × List TurnEvent) R Cost
  turn no_cost acp tools messages =
      run (logging service) registry codec add_cost config no_cost rounds (acp, []) tools messages

  abbrev looped :
      LoopState (S × List TurnEvent) R Cost
      → Result LoopError Unit × LoopState (S × List TurnEvent) R Cost
  looped = run_loop (logging service) registry codec add_cost config config.max_iterations rounds

  finished-NoEnd :
      (p : Result LoopError Unit × LoopState (S × List TurnEvent) R Cost)
      → NoEnd ((p.1).acp)
      → let r = finished (logging service) registry codec add_cost config p in
        (turn_ends ((r.1).acp.1) ≡ (if is_ok (r.0) then 1 else 0))
        × (ends_turn ((r.1).acp.1) ≡ is_ok (r.0))
  unfolding logging turn_ends
  finished-NoEnd (ok u, st) h = (ap suc h, refl)
  finished-NoEnd (err e, st) h = (h, no_end-last _ h)

  finished-Bracketed :
      (p : Result LoopError Unit × LoopState (S × List TurnEvent) R Cost)
      → Bracketed ((p.1).acp)
      → Bracketed (((finished (logging service) registry codec add_cost config p).1).acp)
  unfolding logging bracketed
  finished-Bracketed (ok u, st) h = h
  finished-Bracketed (err e, st) h = h

  -- Whatever the service, the tools and the model answer: if `run` returns Ok, it has sent `turn/end`
  -- exactly once and as its last frame; if it returns an error or panics, it has not sent `turn/end` at
  -- all.
  pub turn_end_once :
      (no_cost : Cost) (acp : S) (tools : R) (messages : List Message)
      → let (result, st) = turn no_cost acp tools messages in
        (turn_ends (st.acp.1) ≡ (if is_ok result then 1 else 0))
        × (ends_turn (st.acp.1) ≡ is_ok result)
  unfolding run turn_ends start
  turn_end_once no_cost acp tools messages =
      finished-NoEnd (looped (start no_cost (acp, []) tools messages)) (
        run_loop_service (logging service) registry codec add_cost config rounds NoEnd NoEnd-kept
          config.max_iterations (start no_cost (acp, []) tools messages) refl)

  -- Whatever the service, the tools and the model answer, and however `run` ends: every
  -- `stream/toolCall` is followed by one `stream/toolResult` with its id, with at most the request to
  -- the operator's tool between the two, and no `stream/toolResult` is sent without its call.
  pub run-bracketed :
      (no_cost : Cost) (acp : S) (tools : R) (messages : List Message)
      → bracketed ((turn no_cost acp tools messages).1.acp.1) ≡ true
  unfolding run bracketed start
  run-bracketed no_cost acp tools messages =
      finished-Bracketed (looped (start no_cost (acp, []) tools messages)) (
        run_loop_service (logging service) registry codec add_cost config rounds Bracketed
          Bracketed-kept config.max_iterations (start no_cost (acp, []) tools messages) refl)
