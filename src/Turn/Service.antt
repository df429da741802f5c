-- ===== src/Turn/Service.antt =====
-- loop/src/agentic_loop.rs: the rule for invariants of the service that the loop runs on.
use overacp.Llm.Compaction.{CompactionResult, CompletionResponse, compact_messages, estimate_tokens}
use overacp.Llm.Retry.{complete}
use overacp.Llm.Sse.{
  StopReason, StreamedResponse, by_content_filter, by_length, by_stop, by_tool_calls,
}
use overacp.Llm.Stream.{Usage}
use overacp.Llm.Types.{Message, ToolCall}
use overacp.Prelude.Result.{Result, err, ok}
use overacp.Prelude.{
  Bool, List, Option, String, [], arith, false, leb, ltb, nat_eq, none, some, string_eq, true, ℕ,
  ◌&&◌, ◌==◌, ◌∷◌,
}
use overacp.Turn.Calls.{handle_call, handle_calls}
use overacp.Turn.Invariant.{Kept, if_kept, run_loop_kept}
use overacp.Turn.Run.{
  after_answer, announced, by_quota, call_model, check_compaction, check_heartbeat, check_quota,
  check_timeout, compaction_done, handle_answer, nudge, on_finish, run_loop, said, say_and_leave,
  send_deltas, track_silence, track_usage, wind_down,
}
use overacp.Turn.{AcpService, Codec, LoopConfig, LoopState, Round, Tools, state_of}

module _ {S R Cost : Type 0} (service : AcpService S Cost) (registry : Tools R) (codec : Codec)
    (add_cost : Cost → Cost → Cost) (config : LoopConfig) (rounds : ℕ → Round Cost)
    (Q : S → Type 0) where
  -- What the loop's own calls of the service keep, and the handling of one tool call as a whole.
  pub record ServiceKept : Type 0 where
    pub delta_kept : (t : String) (s : S) → Q s → Q ((service.stream_text_delta t s).1)
    pub heartbeat_op_kept : (s : S) → Q s → Q ((service.heartbeat s).1)
    pub quota_check_kept : (s : S) → Q s → Q ((service.quota_check s).1)
    pub quota_update_kept : (a b : ℕ) (s : S) → Q s → Q ((service.quota_update a b s).1)
    pub compacted_kept :
        (t : String) (ms : List Message) (u : Usage Cost) (s : S)
        → Q s
        → Q ((service.context_compacted t ms u s).1)
    pub call_kept :
        (tc : ToolCall) (st : LoopState S R Cost)
        → Q st.acp
        → Q ((handle_call service registry codec tc st).acp)

  abbrev OfService : LoopState S R Cost → Type 0
  OfService st = Q st.acp

  module _ (kept : ServiceKept) where
    said_kept :
        (r : Result String Unit × S) (st : LoopState S R Cost)
        → Q (r.1)
        → OfService (state_of (said r st))
    unfolding state_of
    said_kept (ok u, s) st h = h
    said_kept (err e, s) st h = h

    say_kept :
        (t : String) (st : LoopState S R Cost)
        → OfService st
        → OfService (state_of (say_and_leave service registry codec add_cost config t st))
    unfolding say_and_leave
    say_kept t st h = said_kept (service.stream_text_delta t st.acp) st (kept.delta_kept t st.acp h)

    timeout_service :
        (elapsed : ℕ) (st : LoopState S R Cost)
        → OfService st
        → OfService (state_of (check_timeout service registry codec add_cost config elapsed st))
    unfolding check_timeout state_of
    timeout_service elapsed st h =
        if_kept (λ m. OfService (state_of m)) (leb config.timeout elapsed) _ _ (say_kept _ st h) h

    heartbeat_service :
        (now : ℕ) (st : LoopState S R Cost)
        → OfService st
        → OfService (check_heartbeat service registry codec add_cost config now st)
    unfolding check_heartbeat
    heartbeat_service now st h = let kept_beat = kept.heartbeat_op_kept st.acp h in ground arith

    by_quota_kept :
        (p : Result String Bool × S) (st : LoopState S R Cost)
        → Q (p.1)
        → OfService (state_of (by_quota service registry codec add_cost config p st))
    unfolding state_of
    by_quota_kept (ok true, s) st h = h
    by_quota_kept (ok false, s) st h = say_kept _ _ h
    by_quota_kept (err e, s) st h = h

    quota_service :
        (st : LoopState S R Cost)
        → OfService st
        → OfService (state_of (check_quota service registry codec add_cost config st))
    unfolding check_quota
    quota_service st h =
        by_quota_kept (service.quota_check st.acp) st (kept.quota_check_kept st.acp h)

    announced_kept :
        (r : CompactionResult) (st : LoopState S R Cost)
        → OfService st
        → OfService (announced service registry codec add_cost config r st)
    announced_kept r st h =
        let kept_log = kept.compacted_kept r.summary r.canonical_messages st.total_usage st.acp h in
        ground arith

    compaction_done_kept :
        (r : Result String CompactionResult) (st : LoopState S R Cost)
        → OfService st
        → OfService (state_of (compaction_done service registry codec add_cost config r st))
    unfolding state_of
    compaction_done_kept (ok r) st h = announced_kept r st h
    compaction_done_kept (err e) st h = h

    compaction_service :
        (complete : List Message → Result String CompletionResponse) (st : LoopState S R Cost)
        → OfService st
        → OfService (state_of (check_compaction service registry codec add_cost config complete st))
    unfolding check_compaction state_of
    compaction_service complete st h =
        if_kept (λ m. OfService (state_of m))
          (config.over_threshold (estimate_tokens st.messages) && config.context_window == 0) _ _ h
          (if_kept (λ m. OfService (state_of m))
            (config.over_threshold (estimate_tokens st.messages)
              && ltb st.compaction_count config.max_compactions)
            _ _
            (compaction_done_kept
              (compact_messages complete st.messages config.compaction_keep_recent) st h)
            h)

    wind_down-service :
        (n : ℕ) (st : LoopState S R Cost)
        → OfService st
        → OfService (wind_down service registry codec add_cost config n st)
    unfolding wind_down
    wind_down-service n st h = ground arith

    nudge_service : (st : LoopState S R Cost) → OfService st → OfService (nudge st)
    unfolding nudge
    nudge_service st h = ground arith

    send_deltas_kept :
        (ts : List String) (st : LoopState S R Cost)
        → OfService st
        → OfService (send_deltas service registry codec add_cost config ts st)
    unfolding send_deltas
    send_deltas_kept [] st h = h
    send_deltas_kept (t ∷ ts) st h =
        send_deltas_kept ts _ (if_kept OfService (t == "") _ _ h (kept.delta_kept t st.acp h))

    usage_kept :
        (u : Option (Usage Cost)) (st : LoopState S R Cost)
        → OfService st
        → OfService (track_usage service registry codec add_cost config u st)
    usage_kept none st h = h
    usage_kept (some u) st h = kept.quota_update_kept _ _ st.acp h

    silence_kept :
        (m : Message) (st : LoopState S R Cost)
        → OfService st
        → OfService (track_silence service registry codec add_cost config m st)
    unfolding track_silence
    silence_kept m st h = ground arith

    calls_kept :
        (calls : List ToolCall) (st : LoopState S R Cost)
        → OfService st
        → OfService (handle_calls service registry codec calls st)
    unfolding handle_calls
    calls_kept [] st h = h
    calls_kept (tc ∷ calls) st h = calls_kept calls _ (kept.call_kept tc st h)

    finish_kept :
        (reason : Option StopReason) (st : LoopState S R Cost)
        → OfService st
        → OfService (state_of (on_finish service registry codec add_cost config reason st))
    unfolding state_of
    finish_kept none st h = h
    finish_kept (some by_stop) st h = h
    finish_kept (some by_length) st h = say_kept _ st h
    finish_kept (some by_content_filter) st h = say_kept _ st h
    finish_kept (some by_tool_calls) st h = h

    after_answer_kept :
        (calls : Option (List ToolCall)) (reason : Option StopReason) (st : LoopState S R Cost)
        → OfService st
        → OfService (state_of (after_answer service registry codec add_cost config calls reason st))
    unfolding state_of
    after_answer_kept (some calls) reason st h = calls_kept calls st h
    after_answer_kept none reason st h = finish_kept reason st h

    answer_kept :
        (r : Result String (StreamedResponse Cost)) (st : LoopState S R Cost)
        → OfService st
        → OfService (state_of (handle_answer service registry codec add_cost config r st))
    unfolding handle_answer
    answer_kept (err e) st h = say_kept _ st h
    answer_kept (ok streamed) st h =
        after_answer_kept _ _ _ (silence_kept streamed.message _ (usage_kept streamed.usage st h))

    model_service :
        (n : ℕ) (st : LoopState S R Cost)
        → OfService st
        → OfService (state_of (call_model service registry codec add_cost config (rounds n) st))
    unfolding call_model
    model_service n st h = answer_kept _ _ (send_deltas_kept _ st h)

    service_kept : Kept service registry codec add_cost config rounds OfService
    service_kept = record {
      timeout_kept = λ n. timeout_service ((rounds n).elapsed);
      heartbeat_kept = λ n. heartbeat_service ((rounds n).beat);
      quota_kept = quota_service;
      compaction_kept = λ n. compaction_service ((rounds n).complete);
      wind_down_kept = wind_down-service;
      nudge_kept = nudge_service;
      model_kept = model_service;
    }

    -- What every call of the service keeps holds of the service after the loop.
    pub run_loop_service :
        (n : ℕ) (st : LoopState S R Cost)
        → OfService st
        → Q (((run_loop service registry codec add_cost config n rounds st).1).acp)
    run_loop_service =
        run_loop_kept service registry codec add_cost config rounds OfService service_kept
