-- ===== src/Llm/Retry/Examples.antt =====
-- Tests of loop/src/llm/retry.rs, and the theorems at concrete attempts.
use overacp.Llm.Retry.Outcomes.{QuietBefore, Short, complete_bounded, stream_completion_quiet}
use overacp.Llm.Retry.{
  Attempt, StreamError, advance, complete, contains, contains_transient_keyword, delay_for, done,
  escalate_if_transient, failed, into_fatal_with_prefix, is_prefix, is_retryable, keyword_haystack,
  next_delay, retry_loop, retryable, settle, settle_all, stream_completion, to_ascii_lowercase,
}
use overacp.Prelude.Result.{err}
use overacp.Prelude.{
  Bool, List, String, [], false, length, none, refl, some, true, ◌∷◌, ◌≡◌, ◌≢◌, ◌≤◌,
}

abbrev timeout : StreamError
timeout = retryable "Stream read timed out" none

abbrev overloaded : StreamError
overloaded = retryable "LLM HTTP 529" (some "the model is overloaded")

-- Three timeouts use up the default budget.
abbrev timeouts : List (Attempt String)
timeouts = failed timeout ∷ failed timeout ∷ failed timeout ∷ done "late" ∷ []

timeouts_end :
    complete timeouts
    ≡ record { result = some (err timeout); slept = 1000 ∷ 500 ∷ []; attempts = 3 }
unfolding complete retry_loop next_delay advance escalate_if_transient contains_transient_keyword
    keyword_haystack is_retryable delay_for to_ascii_lowercase contains is_prefix
timeouts_end = refl

-- The overload of the second attempt raises the budget, and the delays start again.
abbrev overloads : List (Attempt String)
overloads =
    failed timeout
    ∷ failed overloaded
    ∷ failed overloaded
    ∷ failed overloaded
    ∷ failed overloaded
    ∷ []

overloads_end : (complete overloads).slept ≡ 8000 ∷ 4000 ∷ 2000 ∷ 500 ∷ []
unfolding complete retry_loop next_delay advance escalate_if_transient contains_transient_keyword
    keyword_haystack is_retryable delay_for to_ascii_lowercase contains is_prefix
overloads_end = refl

complete_bounded_example :
    ((complete overloads).attempts ≤ 5)
    × Short (complete overloads).slept
    × (5 ≤ length overloads → (complete overloads).result ≢ none)
complete_bounded_example = complete_bounded overloads

-- The second attempt fails after output, so the third is not made.
abbrev half_way : List (Bool × Attempt String)
half_way = (false, failed timeout) ∷ (true, failed timeout) ∷ (false, done "twice") ∷ []

half_way_attempts : (stream_completion half_way).attempts ≡ 2
unfolding stream_completion settle_all settle retry_loop next_delay advance escalate_if_transient
    contains_transient_keyword keyword_haystack is_retryable delay_for to_ascii_lowercase contains
    is_prefix into_fatal_with_prefix
half_way_attempts = refl

stream_completion_quiet_example : QuietBefore (stream_completion half_way).attempts half_way
stream_completion_quiet_example = stream_completion_quiet half_way
