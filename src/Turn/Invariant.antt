-- ===== src/Turn/Invariant.antt =====
-- loop/src/agentic_loop.rs: the rule for invariants of `run`'s loop. What every part of an iteration
-- keeps holds after the loop, however the loop ends.
use overacp.Prelude.Result.{Result}
use overacp.Prelude.{Bool, false, if◌then◌else◌, suc, true, zero, ℕ}
use overacp.Turn.Run.{
  call_model, check_compaction, check_heartbeat, check_quota, check_timeout, continue_with, iterate,
  nudge, run_loop, wind_down,
}
use overacp.Turn.{
  AcpService, Codec, Flow, LoopConfig, LoopError, LoopState, Round, Tools, and_then, give_back,
  go_on, leave, state_of,
}

pub if_kept :
    {A : Type 0} (P : A → Type 0) (b : Bool) (x y : A) → P x → P y → P (if b then x else y)
if_kept P true x y h k = h
if_kept P false x y h k = k

and_then_kept :
    {A : Type 0} (P : A → Type 0) (m : Flow A) (f : A → Flow A)
    → P (state_of m)
    → ((a : A) → P a → P (state_of (f a)))
    → P (state_of (and_then m f))
unfolding state_of and_then
and_then_kept P (go_on a) f h k = k a h
and_then_kept P (leave a) f h k = h
and_then_kept P (give_back e a) f h k = h

continue_with_kept :
    {S R Cost : Type 0} (P : LoopState S R Cost → Type 0) (m : Flow (LoopState S R Cost))
    (rest : LoopState S R Cost → Result LoopError Unit × LoopState S R Cost)
    → P (state_of m)
    → ((st : LoopState S R Cost) → P st → P ((rest st).1))
    → P ((continue_with m rest).1)
unfolding state_of continue_with
continue_with_kept P (go_on a) rest h k = k a h
continue_with_kept P (leave a) rest h k = h
continue_with_kept P (give_back e a) rest h k = h

module _ {S R Cost : Type 0} (service : AcpService S Cost) (registry : Tools R) (codec : Codec)
    (add_cost : Cost → Cost → Cost) (config : LoopConfig) (rounds : ℕ → Round Cost)
    (P : LoopState S R Cost → Type 0) where
  -- What each part of an iteration keeps.
  pub record Kept : Type 0 where
    pub timeout_kept :
        (n : ℕ) (st : LoopState S R Cost)
        → P st
        → P (
            state_of (check_timeout service registry codec add_cost config ((rounds n).elapsed) st))
    pub heartbeat_kept :
        (n : ℕ) (st : LoopState S R Cost)
        → P st
        → P (check_heartbeat service registry codec add_cost config ((rounds n).beat) st)
    pub quota_kept :
        (st : LoopState S R Cost)
        → P st
        → P (state_of (check_quota service registry codec add_cost config st))
    pub compaction_kept :
        (n : ℕ) (st : LoopState S R Cost)
        → P st
        → P (
            state_of
              (check_compaction service registry codec add_cost config ((rounds n).complete) st))
    pub wind_down_kept :
        (n : ℕ) (st : LoopState S R Cost)
        → P st
        → P (wind_down service registry codec add_cost config n st)
    pub nudge_kept : (st : LoopState S R Cost) → P st → P (nudge st)
    pub model_kept :
        (n : ℕ) (st : LoopState S R Cost)
        → P st
        → P (state_of (call_model service registry codec add_cost config (rounds n) st))

  iterate_kept :
      Kept
      → (n : ℕ) (st : LoopState S R Cost) → P st
      → P (state_of (iterate service registry codec add_cost config n (rounds n) st))
  unfolding iterate
  iterate_kept kept n st h = and_then_kept P _ _ (kept.timeout_kept n st h) (λ st1 h1.
      and_then_kept P _ _ (kept.quota_kept _ (kept.heartbeat_kept n st1 h1)) (λ st2 h2.
        and_then_kept P _ _ (kept.compaction_kept n st2 h2)
          (λ st3 h3. kept.model_kept n _ (kept.nudge_kept _ (kept.wind_down_kept n st3 h3)))))

  pub run_loop_kept :
      Kept
      → (n : ℕ) (st : LoopState S R Cost) → P st
      → P ((run_loop service registry codec add_cost config n rounds st).1)
  unfolding run_loop
  run_loop_kept kept zero st h = h
  run_loop_kept kept (suc n) st h =
      continue_with_kept P _ _ (iterate_kept kept (suc n) st h) (run_loop_kept kept n)
