-- ===== src/Turn/History.antt =====
-- loop/src/agentic_loop.rs: what the parts of an iteration do to the history.
use overacp.Llm.Compaction.Closed.{compact_messages-pending}
use overacp.Llm.Compaction.Results.{compact_messages_paired}
use overacp.Llm.Compaction.{CompactionResult, CompletionResponse, compact_messages, estimate_tokens}
use overacp.Llm.Retry.{complete}
use overacp.Llm.Sse.{StopReason, by_content_filter, by_length, by_stop, by_tool_calls}
use overacp.Llm.Stream.{Usage}
use overacp.Llm.Types.{Message}
use overacp.Prelude.Map.{keep}
use overacp.Prelude.Result.{Result, err, ok}
use overacp.Prelude.{
  Bool, List, Option, String, [], false, is_some, leb, ltb, nat_eq, none, refl, some, string_eq,
  true, ℕ, ◌&&◌, ◌-◌, ◌==◌, ◌||◌, ◌∙◌, ◌∷◌, ◌≡◌,
}
use overacp.Turn.Invariant.{if_kept}
use overacp.Turn.Pairing.{Paired, system_msg-Paired}
use overacp.Turn.Run.{
  by_quota, check_compaction, check_heartbeat, check_quota, check_timeout, compaction_done, nudge,
  on_finish, said, say_and_leave, send_deltas, track_silence, track_usage, wind_down,
}
use overacp.Turn.{AcpService, Codec, LoopConfig, LoopState, Round, Tools, state_of}

module _ {S R Cost : Type 0} (service : AcpService S Cost) (registry : Tools R) (codec : Codec)
    (add_cost : Cost → Cost → Cost) (config : LoopConfig) (rounds : ℕ → Round Cost) where
  abbrev OfHistory : LoopState S R Cost → Type 0
  OfHistory st = Paired st.messages

  said-OfHistory :
      (r : Result String Unit × S) (st : LoopState S R Cost)
      → OfHistory st
      → OfHistory (state_of (said r st))
  unfolding state_of
  said-OfHistory (ok u, s) st h = h
  said-OfHistory (err e, s) st h = h

  pub say-OfHistory :
      (t : String) (st : LoopState S R Cost)
      → OfHistory st
      → OfHistory (state_of (say_and_leave service registry codec add_cost config t st))
  unfolding say_and_leave
  say-OfHistory t st h = said-OfHistory (service.stream_text_delta t st.acp) st h

  pub timeout-OfHistory :
      (elapsed : ℕ) (st : LoopState S R Cost)
      → OfHistory st
      → OfHistory (state_of (check_timeout service registry codec add_cost config elapsed st))
  unfolding check_timeout state_of
  timeout-OfHistory elapsed st h =
      if_kept (λ m. OfHistory (state_of m)) (leb config.timeout elapsed) _ _ (say-OfHistory _ st h)
        h

  pub heartbeat-OfHistory :
      (now : ℕ) (st : LoopState S R Cost)
      → OfHistory st
      → OfHistory (check_heartbeat service registry codec add_cost config now st)
  unfolding check_heartbeat
  heartbeat-OfHistory now st h = if_kept OfHistory (leb 30000 (now - st.last_heartbeat)) _ _ h h

  quota-OfHistory :
      (p : Result String Bool × S) (st : LoopState S R Cost)
      → OfHistory st
      → OfHistory (state_of (by_quota service registry codec add_cost config p st))
  unfolding state_of
  quota-OfHistory (ok true, s) st h = h
  quota-OfHistory (ok false, s) st h = say-OfHistory _ _ h
  quota-OfHistory (err e, s) st h = h

  pub check_quota-OfHistory :
      (st : LoopState S R Cost)
      → OfHistory st
      → OfHistory (state_of (check_quota service registry codec add_cost config st))
  unfolding check_quota
  check_quota-OfHistory st h = quota-OfHistory (service.quota_check st.acp) st h

  compaction_done-OfHistory :
      (complete : List Message → Result String CompletionResponse) (keep : ℕ)
      (r : Result String CompactionResult) (st : LoopState S R Cost)
      → compact_messages complete st.messages keep ≡ r
      → OfHistory st
      → OfHistory (state_of (compaction_done service registry codec add_cost config r st))
  unfolding state_of
  compaction_done-OfHistory complete keep (ok r) st e (h, k) = (
    (compact_messages_paired complete st.messages keep r h e).1,
    compact_messages-pending complete st.messages keep r e ∙ k,
  )
  compaction_done-OfHistory complete keep (err x) st e h = h

  pub compaction-OfHistory :
      (complete : List Message → Result String CompletionResponse) (st : LoopState S R Cost)
      → OfHistory st
      → OfHistory (state_of (check_compaction service registry codec add_cost config complete st))
  unfolding check_compaction state_of
  compaction-OfHistory complete st h =
      if_kept (λ m. OfHistory (state_of m))
        (config.over_threshold (estimate_tokens st.messages) && config.context_window == 0) _ _ h
        (if_kept (λ m. OfHistory (state_of m))
          (config.over_threshold (estimate_tokens st.messages)
            && ltb st.compaction_count config.max_compactions)
          _ _
          (compaction_done-OfHistory complete config.compaction_keep_recent
            (compact_messages complete st.messages config.compaction_keep_recent) st refl h)
          h)

  pub wind_down-OfHistory :
      (n : ℕ) (st : LoopState S R Cost)
      → OfHistory st
      → OfHistory (wind_down service registry codec add_cost config n st)
  unfolding wind_down
  wind_down-OfHistory n st h = if_kept OfHistory (n == 5) _ _ (system_msg-Paired st.messages _ h) h

  pub nudge-OfHistory : (st : LoopState S R Cost) → OfHistory st → OfHistory (nudge st)
  unfolding nudge
  nudge-OfHistory st h =
      if_kept OfHistory (leb 3 st.silent_turns) _ _ (system_msg-Paired st.messages _ h) h

  pub send_deltas-OfHistory :
      (ts : List String) (st : LoopState S R Cost)
      → OfHistory st
      → OfHistory (send_deltas service registry codec add_cost config ts st)
  unfolding send_deltas
  send_deltas-OfHistory [] st h = h
  send_deltas-OfHistory (t ∷ ts) st h =
      send_deltas-OfHistory ts _ (if_kept OfHistory (t == "") _ _ h h)

  pub usage-OfHistory :
      (u : Option (Usage Cost)) (st : LoopState S R Cost)
      → OfHistory st
      → OfHistory (track_usage service registry codec add_cost config u st)
  usage-OfHistory none st h = h
  usage-OfHistory (some u) st h = h

  pub silence-OfHistory :
      (m : Message) (st : LoopState S R Cost)
      → OfHistory st
      → OfHistory (track_silence service registry codec add_cost config m st)
  unfolding track_silence
  silence-OfHistory m st h = if_kept OfHistory (is_some m.content || is_some m.tool_calls) _ _ h h

  pub finish-OfHistory :
      (reason : Option StopReason) (st : LoopState S R Cost)
      → OfHistory st
      → OfHistory (state_of (on_finish service registry codec add_cost config reason st))
  unfolding state_of
  finish-OfHistory none st h = h
  finish-OfHistory (some by_stop) st h = h
  finish-OfHistory (some by_length) st h = say-OfHistory _ st h
  finish-OfHistory (some by_content_filter) st h = say-OfHistory _ st h
  finish-OfHistory (some by_tool_calls) st h = h
