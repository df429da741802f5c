-- ===== src/Turn/Limits.antt =====
-- loop/src/agentic_loop.rs: when `run` comes to its end without an error, and the cap on compactions.
-- Whether a part of an iteration returns no error.
use overacp.Llm.Compaction.{
  CompactionResult, compact_messages, estimate_tokens, proposed_split, slice_of, start_of,
  summarize, system_message,
}
use overacp.Llm.Sse.{
  StopReason, StreamedResponse, by_content_filter, by_length, by_stop, by_tool_calls,
}
use overacp.Llm.Types.{Message, ToolCall}
use overacp.Prelude.Map.{keep}
use overacp.Prelude.Result.{Result, err, is_ok, map_ok, ok}
use overacp.Prelude.{
  Bool, List, Option, String, [], ap, arith, false, if◌then◌else◌, leb, length, ltb, nat_eq, none,
  refl, some, string_eq, suc, true, zero, ℕ, ◌&&◌, ◌+◌, ◌<◌, ◌==◌, ◌∙◌, ◌≡◌,
}
use overacp.Turn.Invariant.{if_kept}
use overacp.Turn.Order.{turn, turn_end_once}
use overacp.Turn.Recorded.{ends_turn, logging, turn_ends}
use overacp.Turn.Run.{
  after_answer, by_quota, call_model, check_compaction, check_quota, check_timeout, compaction_done,
  continue_with, finished, handle_answer, iterate, on_finish, run, run_loop, said, say_and_leave,
  start,
}
use overacp.Turn.{
  AcpService, Codec, Flow, LoopConfig, LoopError, LoopState, Round, Tools, and_then, give_back,
  go_on, leave,
}

unfoldable succeeds : {A : Type 0} → Flow A → Bool
succeeds (go_on a) = true
succeeds (leave a) = true
succeeds (give_back e a) = false

and_then-succeeds :
    {A : Type 0} (m : Flow A) (f : A → Flow A)
    → succeeds m ≡ true
    → ((a : A) → succeeds (f a) ≡ true)
    → succeeds (and_then m f) ≡ true
unfolding and_then succeeds
and_then-succeeds (go_on a) f h k = k a
and_then-succeeds (leave a) f h k = refl
and_then-succeeds (give_back e a) f h k = h

map_ok-is_ok :
    {E A B : Type 0} (f : A → B) (r : Result E A) → is_ok r ≡ true → is_ok (map_ok f r) ≡ true
map_ok-is_ok f (ok a) h = refl
map_ok-is_ok f (err e) h = h

abbrev WellMade : Result String CompactionResult → Type 0
WellMade r = is_ok r ≡ true

module _ {S R Cost : Type 0} (service : AcpService S Cost) (registry : Tools R) (codec : Codec)
    (add_cost : Cost → Cost → Cost) (config : LoopConfig) (rounds : ℕ → Round Cost) where
  -- What the end of a turn relies on: the context window is not 0, a text can always be sent, and the
  -- model answers each request for a summary with a text.
  pub record Works : Type 0 where
    pub has_window : 0 < config.context_window
    pub texts_sent : (t : String) (s : S) → is_ok ((service.stream_text_delta t s).0) ≡ true
    pub summaries_made :
        (n : ℕ) (ms : List Message) → is_ok (summarize ((rounds n).complete) ms) ≡ true

  module _ (works : Works) where
    said-succeeds :
        (r : Result String Unit × S) (st : LoopState S R Cost)
        → is_ok (r.0) ≡ true
        → succeeds (said r st) ≡ true
    unfolding succeeds
    said-succeeds (ok u, s) st h = refl
    said-succeeds (err e, s) st h = h

    say-succeeds :
        (t : String) (st : LoopState S R Cost)
        → succeeds (say_and_leave service registry codec add_cost config t st) ≡ true
    unfolding say_and_leave
    say-succeeds t st =
        said-succeeds (service.stream_text_delta t st.acp) st (works.texts_sent t st.acp)

    timeout-succeeds :
        (elapsed : ℕ) (st : LoopState S R Cost)
        → succeeds (check_timeout service registry codec add_cost config elapsed st) ≡ true
    unfolding check_timeout succeeds
    timeout-succeeds elapsed st =
        if_kept (λ (m : Flow (LoopState S R Cost)). succeeds m ≡ true) (leb config.timeout elapsed)
          _ _ (say-succeeds _ st) refl

    by_quota-succeeds :
        (p : Result String Bool × S) (st : LoopState S R Cost)
        → succeeds (by_quota service registry codec add_cost config p st) ≡ true
    unfolding succeeds
    by_quota-succeeds (ok true, s) st = refl
    by_quota-succeeds (ok false, s) st = say-succeeds _ _
    by_quota-succeeds (err e, s) st = refl

    quota-succeeds :
        (st : LoopState S R Cost)
        → succeeds (check_quota service registry codec add_cost config st) ≡ true
    unfolding check_quota
    quota-succeeds st = by_quota-succeeds (service.quota_check st.acp) st

    compact_messages-succeeds :
        (n : ℕ) (ms : List Message) (keep : ℕ)
        → is_ok (compact_messages ((rounds n).complete) ms keep) ≡ true
    unfolding compact_messages
    compact_messages-succeeds n ms keep =
        let start = start_of (system_message ms) in
        if_kept WellMade (leb (length ms) (keep + 2)) _ _ refl (
          if_kept WellMade (leb (proposed_split ms keep) start) _ _ refl (
            map_ok-is_ok _ _ (works.summaries_made n (slice_of ms start (proposed_split ms keep)))))

    compaction_done-succeeds :
        (r : Result String CompactionResult) (st : LoopState S R Cost)
        → is_ok r ≡ true
        → succeeds (compaction_done service registry codec add_cost config r st) ≡ true
    unfolding succeeds
    compaction_done-succeeds (ok r) st h = refl
    compaction_done-succeeds (err e) st h = h

    no_panic : (over : Bool) → (over && config.context_window == 0) ≡ false
    no_panic true = let positive = works.has_window in ground arith
    no_panic false = refl

    compaction-succeeds :
        (n : ℕ) (st : LoopState S R Cost)
        → succeeds
            (check_compaction service registry codec add_cost config ((rounds n).complete) st)
          ≡ true
    unfolding check_compaction succeeds
    compaction-succeeds n st = rw (no_panic (config.over_threshold (estimate_tokens st.messages))) (
        if_kept (λ (m : Flow (LoopState S R Cost)). succeeds m ≡ true)
          (config.over_threshold (estimate_tokens st.messages)
            && ltb st.compaction_count config.max_compactions)
          _ _
          (compaction_done-succeeds
            (compact_messages ((rounds n).complete) st.messages config.compaction_keep_recent) st
            (compact_messages-succeeds n st.messages config.compaction_keep_recent))
          refl)

    finish-succeeds :
        (reason : Option StopReason) (st : LoopState S R Cost)
        → succeeds (on_finish service registry codec add_cost config reason st) ≡ true
    unfolding succeeds
    finish-succeeds none st = refl
    finish-succeeds (some by_stop) st = refl
    finish-succeeds (some by_length) st = say-succeeds _ st
    finish-succeeds (some by_content_filter) st = say-succeeds _ st
    finish-succeeds (some by_tool_calls) st = refl

    after_answer-succeeds :
        (calls : Option (List ToolCall)) (reason : Option StopReason) (st : LoopState S R Cost)
        → succeeds (after_answer service registry codec add_cost config calls reason st) ≡ true
    unfolding succeeds
    after_answer-succeeds (some calls) reason st = refl
    after_answer-succeeds none reason st = finish-succeeds reason st

    answer-succeeds :
        (r : Result String (StreamedResponse Cost)) (st : LoopState S R Cost)
        → succeeds (handle_answer service registry codec add_cost config r st) ≡ true
    unfolding handle_answer
    answer-succeeds (err e) st = say-succeeds _ st
    answer-succeeds (ok streamed) st = after_answer-succeeds streamed.message.tool_calls _ _

    iterate-succeeds :
        (n : ℕ) (st : LoopState S R Cost)
        → succeeds (iterate service registry codec add_cost config n (rounds n) st) ≡ true
    unfolding iterate call_model
    iterate-succeeds n st = and_then-succeeds _ _ (timeout-succeeds ((rounds n).elapsed) st) (λ st1.
        and_then-succeeds _ _ (quota-succeeds _)
          (λ st2. and_then-succeeds _ _ (compaction-succeeds n st2) (λ st3. answer-succeeds _ _)))

    continue_with-is_ok :
        (m : Flow (LoopState S R Cost))
        (rest : LoopState S R Cost → Result LoopError Unit × LoopState S R Cost)
        → succeeds m ≡ true
        → ((st : LoopState S R Cost) → is_ok ((rest st).0) ≡ true)
        → is_ok ((continue_with m rest).0) ≡ true
    unfolding continue_with succeeds
    continue_with-is_ok (go_on st) rest h k = k st
    continue_with-is_ok (leave st) rest h k = refl
    continue_with-is_ok (give_back e st) rest h k = h

    run_loop-is_ok :
        (n : ℕ) (st : LoopState S R Cost)
        → is_ok ((run_loop service registry codec add_cost config n rounds st).0) ≡ true
    unfolding run_loop
    run_loop-is_ok zero st = refl
    run_loop-is_ok (suc n) st =
        continue_with-is_ok _ _ (iterate-succeeds (suc n) st) (run_loop-is_ok n)

    finished-is_ok :
        (p : Result LoopError Unit × LoopState S R Cost)
        → is_ok (p.0) ≡ true
        → is_ok ((finished service registry codec add_cost config p).0) ≡ true
    finished-is_ok (ok u, st) h = refl
    finished-is_ok (err e, st) h = h

    pub run-is_ok :
        (no_cost : Cost) (acp : S) (tools : R) (messages : List Message)
        → is_ok ((run service registry codec add_cost config no_cost rounds acp tools messages).0)
          ≡ true
    unfolding run
    run-is_ok no_cost acp tools messages =
        finished-is_ok _ (run_loop-is_ok config.max_iterations (start no_cost acp tools messages))

module _ {S R Cost : Type 0} (service : AcpService S Cost) (registry : Tools R) (codec : Codec)
    (add_cost : Cost → Cost → Cost) (config : LoopConfig) (rounds : ℕ → Round Cost) where
  -- If the context window is not 0, the service can always send a text, and the model answers each
  -- request for a summary with a text, then `run` returns Ok, whatever else fails, and its last frame
  -- is its only `turn/end`.
  pub run-ends_turn :
      (no_cost : Cost) (acp : S) (tools : R) (messages : List Message)
      → Works service registry codec add_cost config rounds
      → let (result, st) =
          turn service registry codec add_cost config rounds no_cost acp tools messages in
        (is_ok result ≡ true) × (turn_ends (st.acp.1) ≡ 1) × (ends_turn (st.acp.1) ≡ true)
  unfolding logging
  run-ends_turn no_cost acp tools messages works =
      let logging_works : Works (logging service) registry codec add_cost config rounds = record {
        has_window = works.has_window;
        texts_sent = λ t (s, log). works.texts_sent t s;
        summaries_made = works.summaries_made;
      } in
      let succeeded =
        run-is_ok (logging service) registry codec add_cost config rounds logging_works no_cost
          (acp, []) tools messages in
      let (once, last) =
        turn_end_once service registry codec add_cost config rounds no_cost acp tools messages in
      (succeeded, once ∙ ap (λ b. if b then 1 else 0) succeeded, last ∙ succeeded)
