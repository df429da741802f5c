-- ===== src/Turn/Run.antt =====
-- loop/src/agentic_loop.rs: `run`, one part of an iteration after the other.
use overacp.Llm.Compaction.{CompactionResult, CompletionResponse, compact_messages, estimate_tokens}
use overacp.Llm.Retry.{complete}
use overacp.Llm.Sse.{
  StopReason, StreamedResponse, by_content_filter, by_length, by_stop, by_tool_calls,
}
use overacp.Llm.Stream.{Usage}
use overacp.Llm.Types.{Message, ToolCall}
use overacp.Prelude.Result.{Result, err, ok}
use overacp.Prelude.{
  Bool, List, Option, String, [], if◌then◌else◌, is_some, leb, ltb, nat_eq, none, some, string_eq,
  suc, true, zero, ℕ, ◌%◌, ◌&&◌, ◌+◌, ◌-◌, ◌==◌, ◌||◌, ◌∷◌,
}
use overacp.Turn.Calls.{answer, handle_calls, push_message}
use overacp.Turn.Outputs.{concat, system_msg}
use overacp.Turn.{
  AcpService, Codec, Flow, LoopConfig, LoopError, LoopState, Round, Tools, and_then, failed,
  give_back, go_on, leave, panicked,
}

abbrev heartbeat_interval : ℕ
heartbeat_interval = 30000

abbrev wind_down_iters : ℕ
wind_down_iters = 5

abbrev silence_nudge : String
silence_nudge =
    "You haven't produced any output. Please respond to the user or explain what you're working on."

-- The sum of two `u64` counters, as a release build makes it.
abbrev pub add_u64 : ℕ → ℕ → ℕ
add_u64 a b = (a + b) % 18446744073709551616

unfoldable pub add_usage :
    {Cost : Type 0} → (Cost → Cost → Cost) → Usage Cost → Usage Cost → Usage Cost
add_usage add_cost total u = record {
  prompt_tokens = add_u64 total.prompt_tokens u.prompt_tokens;
  completion_tokens = add_u64 total.completion_tokens u.completion_tokens;
  total_tokens = add_u64 total.total_tokens u.total_tokens;
  cost = add_cost total.cost u.cost;
  cache_read_tokens = add_u64 total.cache_read_tokens u.cache_read_tokens;
  cache_creation_tokens = add_u64 total.cache_creation_tokens u.cache_creation_tokens;
}

abbrev pub allowed : Result String Bool → Bool
allowed (ok b) = b
allowed (err e) = true

module _ {S R Cost : Type 0} where
  abbrev pub with_acp : {A : Type 0} → A × S → LoopState S R Cost → LoopState S R Cost
  with_acp (r, acp) st = record st { acp = acp }

  abbrev pub said : Result String Unit × S → LoopState S R Cost → Flow (LoopState S R Cost)
  said (ok u, acp) st = leave (record st { acp = acp })
  said (err e, acp) st = give_back (failed e) (record st { acp = acp })

  unfoldable pub nudge : LoopState S R Cost → LoopState S R Cost
  nudge st =
      if leb 3 st.silent_turns
      then record (push_message (system_msg silence_nudge) st) { silent_turns = 0 }
      else st

  -- The variables that `run` starts with.
  unfoldable pub start : Cost → S → R → List Message → LoopState S R Cost
  start no_cost acp tools messages = record {
    acp = acp;
    tools = tools;
    messages = messages;
    total_usage = record {
      prompt_tokens = 0;
      completion_tokens = 0;
      total_tokens = 0;
      cost = no_cost;
      cache_read_tokens = 0;
      cache_creation_tokens = 0;
    };
    silent_turns = 0;
    last_heartbeat = 0;
    compaction_count = 0;
  }

  -- What an iteration's end means for the loop: `rest` are the later iterations.
  unfoldable pub continue_with :
      Flow (LoopState S R Cost)
      → (LoopState S R Cost → Result LoopError Unit × LoopState S R Cost)
      → Result LoopError Unit × LoopState S R Cost
  continue_with (go_on st) rest = rest st
  continue_with (leave st) rest = (ok tt, st)
  continue_with (give_back e st) rest = (err e, st)

module _ {S R Cost : Type 0} (service : AcpService S Cost) (registry : Tools R) (codec : Codec)
    (add_cost : Cost → Cost → Cost) (config : LoopConfig) where
  -- A last text for the user, whose error is that of `run`.
  unfoldable pub say_and_leave : String → LoopState S R Cost → Flow (LoopState S R Cost)
  say_and_leave t st = said (service.stream_text_delta t st.acp) st

  unfoldable pub check_timeout : ℕ → LoopState S R Cost → Flow (LoopState S R Cost)
  check_timeout elapsed st =
      if leb config.timeout elapsed then say_and_leave "\n\n[Session timed out]" st else go_on st

  unfoldable pub check_heartbeat : ℕ → LoopState S R Cost → LoopState S R Cost
  check_heartbeat now st =
      if leb heartbeat_interval (now - st.last_heartbeat)
      then record (with_acp (service.heartbeat st.acp) st) { last_heartbeat = now }
      else st

  abbrev pub by_quota : Result String Bool × S → LoopState S R Cost → Flow (LoopState S R Cost)
  by_quota (answer, acp) st =
      if allowed answer
      then go_on (record st { acp = acp })
      else say_and_leave "\n\n[Quota exhausted]" (record st { acp = acp })

  unfoldable pub check_quota : LoopState S R Cost → Flow (LoopState S R Cost)
  check_quota st = by_quota (service.quota_check st.acp) st

  -- What `run` does with a compaction: an empty summary means that nothing was compacted.
  abbrev pub announced : CompactionResult → LoopState S R Cost → LoopState S R Cost
  announced r st =
      let after =
        with_acp (service.context_compacted r.summary r.canonical_messages st.total_usage st.acp)
          st in
      if r.summary == "" then st else record after { compaction_count = suc st.compaction_count }

  abbrev pub compaction_done :
      Result String CompactionResult → LoopState S R Cost → Flow (LoopState S R Cost)
  compaction_done (ok r) st = go_on (record (announced r st) { messages = r.working_messages })
  compaction_done (err e) st = give_back (failed e) st

  -- Whether it compacts or the cap is reached, the percentage that is logged divides by the context
  -- window, where the log takes messages of level info.
  unfoldable pub check_compaction :
      (List Message → Result String CompletionResponse)
      → LoopState S R Cost
      → Flow (LoopState S R Cost)
  check_compaction complete st =
      if config.over_threshold (estimate_tokens st.messages) && config.context_window == 0
      then give_back panicked st
      else if config.over_threshold (estimate_tokens st.messages)
          && ltb st.compaction_count config.max_compactions
      then compaction_done (compact_messages complete st.messages config.compaction_keep_recent) st
      else go_on st

  unfoldable pub wind_down : ℕ → LoopState S R Cost → LoopState S R Cost
  wind_down remaining st =
      if remaining == wind_down_iters
      then push_message
          (system_msg (
            concat (
              "[System: "
              ∷ codec.of_nat remaining
              ∷ " iterations remaining. Wrap up your work.]"
              ∷ [])))
          st
      else st

  abbrev pub send_delta : String → LoopState S R Cost → LoopState S R Cost
  send_delta t st = if t == "" then st else with_acp (service.stream_text_delta t st.acp) st

  -- The texts that the model has put out are sent after the call, the empty ones left out.
  unfoldable pub send_deltas : List String → LoopState S R Cost → LoopState S R Cost
  send_deltas [] st = st
  send_deltas (t ∷ ts) st = send_deltas ts (send_delta t st)

  abbrev pub track_usage : Option (Usage Cost) → LoopState S R Cost → LoopState S R Cost
  track_usage none st = st
  track_usage (some u) st =
      with_acp (service.quota_update u.prompt_tokens u.completion_tokens st.acp)
        (record st { total_usage = add_usage add_cost st.total_usage u })

  unfoldable pub track_silence : Message → LoopState S R Cost → LoopState S R Cost
  track_silence m st =
      if is_some m.content || is_some m.tool_calls
      then record st { silent_turns = 0 }
      else record st { silent_turns = suc st.silent_turns }

  abbrev pub on_finish : Option StopReason → LoopState S R Cost → Flow (LoopState S R Cost)
  on_finish none st = leave st
  on_finish (some by_stop) st = leave st
  on_finish (some by_length) st = say_and_leave "\n\n[Response truncated due to length limit]" st
  on_finish (some by_content_filter) st = say_and_leave "\n\n[Content filtered]" st
  on_finish (some by_tool_calls) st = go_on st

  abbrev pub after_answer :
      Option (List ToolCall) → Option StopReason → LoopState S R Cost → Flow (LoopState S R Cost)
  after_answer (some calls) reason st = go_on (handle_calls service registry codec calls st)
  after_answer none reason st = on_finish reason st

  unfoldable pub handle_answer :
      Result String (StreamedResponse Cost) → LoopState S R Cost → Flow (LoopState S R Cost)
  handle_answer (err e) st = say_and_leave (concat ("\n\n[LLM error: " ∷ e ∷ "]" ∷ [])) st
  handle_answer (ok streamed) st = after_answer streamed.message.tool_calls streamed.finish_reason (
      push_message streamed.message
        (track_silence streamed.message (track_usage streamed.usage st)))

  unfoldable pub call_model : Round Cost → LoopState S R Cost → Flow (LoopState S R Cost)
  call_model round st =
      let (text_deltas, streamed) =
        round.stream_completion st.messages (registry.definitions st.tools) in
      handle_answer streamed (send_deltas text_deltas st)

  -- The body of the `for` loop, with `remaining` iterations before its end, itself among them.
  unfoldable pub iterate : ℕ → Round Cost → LoopState S R Cost → Flow (LoopState S R Cost)
  iterate remaining round st = and_then (check_timeout round.elapsed st) (λ st1.
      and_then (check_quota (check_heartbeat round.beat st1)) (λ st2.
        and_then (check_compaction round.complete st2)
          (λ st3. call_model round (nudge (wind_down remaining st3)))))

  -- The `for` loop, whose iteration of `n` remaining ones sees `rounds n`.
  unfoldable pub run_loop :
      ℕ → (ℕ → Round Cost) → LoopState S R Cost → Result LoopError Unit × LoopState S R Cost
  run_loop zero rounds st = (ok tt, st)
  run_loop (suc n) rounds st =
      continue_with (iterate (suc n) (rounds (suc n)) st) (run_loop n rounds)

  abbrev pub finished :
      Result LoopError Unit × LoopState S R Cost → Result LoopError Unit × LoopState S R Cost
  finished (ok u, st) = (ok tt, with_acp (service.turn_end st.messages st.total_usage st.acp) st)
  finished (err e, st) = (err e, st)

  unfoldable pub run :
      Cost → (ℕ → Round Cost) → S → R → List Message → Result LoopError Unit × LoopState S R Cost
  run no_cost rounds acp tools messages =
      finished (run_loop config.max_iterations rounds (start no_cost acp tools messages))
