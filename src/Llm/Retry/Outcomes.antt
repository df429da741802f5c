-- ===== src/Llm/Retry/Outcomes.antt =====
-- loop/src/llm/client.rs: what the retry loops of `complete` and `stream_completion` come to.
use native.Mathlib.Numerals.{add-one}
use overacp.Llm.Retry.Bounds.{Inv, fresh-Inv, next_delay-Inv}
use overacp.Llm.Retry.{
  Attempt, RetryState, StreamError, advance, complete, contains_transient_keyword, default_budget,
  delay_for, done, failed, fatal, fresh, give_up, into_fatal_with_prefix, is_retryable,
  keyword_haystack, next_delay, retry_loop, retryable, settle_all, stream_completion,
}
use overacp.Prelude.Result.{ok}
use overacp.Prelude.{
  All, Bool, List, Option-cases, [], arith, false, if◌then◌else◌, inl, inr, length, none, refl,
  some, subst, suc, true, zero, ℕ, ◌&&◌, ◌*◌, ◌+◌, ◌<◌, ◌^◌, ◌∷◌, ◌≡◌, ◌≢◌, ◌≤◌, ◌⊎◌,
}

abbrev pub Short : List ℕ → Type 0
Short = All (λ (delay : ℕ). delay ≤ 16000)

wait_cases :
    (s : RetryState) (e : StreamError)
    → ((next_delay s e).1 ≡ none) ⊎ ((delay : ℕ) × ((next_delay s e).1 ≡ some delay))
wait_cases s e = Option-cases (next_delay s e).1

-- The waits of the default budget after so many failures, the last one first.
abbrev pub default_waits : ℕ → List ℕ
default_waits zero = []
default_waits (suc n) = 500 * 2 ^ n ∷ default_waits n

pub record Default (s : RetryState) (n : ℕ) : Type 0 where
  pub budget : s.budget ≡ default_budget
  pub num : s.attempt_num ≡ n + 1
  pub idx : s.exponent_idx ≡ n

first_waits :
    (m : ℕ) {waits : List ℕ}
    → m ≤ 2
    → waits ≡ default_waits m
    → (waits ≡ []) ⊎ (waits ≡ 500 ∷ []) ⊎ (waits ≡ 1000 ∷ 500 ∷ [])
first_waits zero h e = inl e
first_waits (suc zero) h e = inr (inl e)
first_waits (suc (suc zero)) h e = inr (inr e)
first_waits (suc (suc (suc m))) h e = absurd (omega arith)

next_delay-Default :
    (s : RetryState) (n : ℕ) (e : StreamError) (delay : ℕ)
    → Default s n
    → contains_transient_keyword (keyword_haystack e) ≡ false
    → (next_delay s e).1 ≡ some delay
    → Default (advance (next_delay s e).0) (suc n) × (n < 2) × (delay ≡ 500 * 2 ^ n)
unfolding next_delay advance delay_for
next_delay-Default s n e delay d quiet h = (
  record { budget = ground arith; num = ground arith; idx = ground arith },
  ground arith,
  ground arith,
)

fatal_ends : (s : RetryState) (e : StreamError) → is_retryable e ≡ false → (next_delay s e).1 ≡ none
unfolding next_delay
fatal_ends s e h = ground arith

settle_emitted :
    (e : StreamError)
    → is_retryable (
        if true && is_retryable e
        then into_fatal_with_prefix
            "mid-stream error after partial output emitted; cannot retry safely" e
        else e)
      ≡ false
unfolding is_retryable into_fatal_with_prefix
settle_emitted (retryable message body) = refl
settle_emitted (fatal message body) = refl

module _ {A : Type 0} where
  loop_empty :
      (s : RetryState) (slept : List ℕ) (n : ℕ)
      → retry_loop {A = A} s slept n [] ≡ record { result = none; slept = slept; attempts = n }
  unfolding retry_loop
  loop_empty s slept n = refl

  loop_done :
      (s : RetryState) (slept : List ℕ) (n : ℕ) (a : A) (rest : List (Attempt A))
      → retry_loop s slept n (done a ∷ rest)
        ≡ record { result = some (ok a); slept = slept; attempts = suc n }
  unfolding retry_loop
  loop_done s slept n a rest = rw (add-one n) refl

  loop_gives_up :
      (s : RetryState) (slept : List ℕ) (n : ℕ) (e : StreamError) (rest : List (Attempt A))
      → (next_delay s e).1 ≡ none
      → retry_loop s slept n (failed e ∷ rest) ≡ give_up e slept (suc n)
  unfolding retry_loop
  loop_gives_up s slept n e rest h = rw (h, retry_loop, add-one n) refl

  loop_goes_on :
      (s : RetryState) (slept : List ℕ) (n : ℕ) (e : StreamError) (rest : List (Attempt A))
      (delay : ℕ)
      → (next_delay s e).1 ≡ some delay
      → retry_loop s slept n (failed e ∷ rest)
        ≡ retry_loop (advance (next_delay s e).0) (delay ∷ slept) (suc n) rest
  unfolding retry_loop
  loop_goes_on s slept n e rest delay h = rw (h, retry_loop, add-one n) refl

  -- After at most five attempts the loop ends, and every wait is of 16 seconds at most.
  retry_loop_bounded :
      (s : RetryState) (slept : List ℕ) (n : ℕ) (attempts : List (Attempt A))
      → Inv s n
      → Short slept
      → let o = retry_loop s slept n attempts in
        (o.attempts ≤ 5) × Short o.slept × (5 ≤ n + length attempts → o.result ≢ none)
  retry_loop_bounded s slept n [] v short =
      rw (loop_empty s slept n) (ground arith, short, λ enough. absurd (ground arith))
  retry_loop_bounded s slept n (done a ∷ rest) v short =
      rw (loop_done s slept n a rest) (ground arith, short, λ enough none_left. cc)
  retry_loop_bounded s slept n (failed e ∷ rest) v short = elim (wait_cases s e) [
    | inl h ↦ rw (loop_gives_up s slept n e rest h) (ground arith, short, λ enough none_left. cc)
    | inr (delay, h) ↦
        let (v', d) = next_delay-Inv s n e delay v h in
        let (few, small, ends) =
          retry_loop_bounded (advance (next_delay s e).0) (delay ∷ slept) (suc n) rest v'
            (d, short) in
        rw (loop_goes_on s slept n e rest delay h) (few, small, λ enough. ends (omega arith))
  ]

  -- The retry loop of `complete`: at most five attempts are made, no wait is longer than 16 seconds,
  -- and the loop has ended with a value or an error once five attempts have answered.
  pub complete_bounded :
      (attempts : List (Attempt A))
      → let o = complete attempts in
        (o.attempts ≤ 5) × Short o.slept × (5 ≤ length attempts → o.result ≢ none)
  unfolding complete
  complete_bounded attempts =
      let (few, small, ends) = retry_loop_bounded fresh [] 0 attempts fresh-Inv tt in
      (few, small, λ enough. ends (omega arith))

  -- None of the failures speaks of overload or limits.
  abbrev pub NoKeyword : List (Attempt A) → Type 0
  NoKeyword [] = Unit
  NoKeyword (done a ∷ rest) = NoKeyword rest
  NoKeyword (failed e ∷ rest) =
      (contains_transient_keyword (keyword_haystack e) ≡ false) × NoKeyword rest

  retry_loop-Default :
      (s : RetryState) (n : ℕ) (attempts : List (Attempt A))
      → Default s n
      → n < 3
      → NoKeyword attempts
      → let o = retry_loop s (default_waits n) n attempts in
        (o.attempts ≤ 3) × (m : ℕ) × (m ≤ 2) × (o.slept ≡ default_waits m)
  retry_loop-Default s n [] d few quiet =
      rw (loop_empty s (default_waits n) n) (omega arith, n, omega arith, refl)
  retry_loop-Default s n (done a ∷ rest) d few quiet =
      rw (loop_done s (default_waits n) n a rest) (omega arith, n, omega arith, refl)
  retry_loop-Default s n (failed e ∷ rest) d few quiet = elim (wait_cases s e) [
    | inl h ↦ rw (loop_gives_up s (default_waits n) n e rest h) (omega arith, n, omega arith, refl)
    | inr (delay, h) ↦
        let (d', few', same) = next_delay-Default s n e delay d quiet.0 h in
        rw (loop_goes_on s (default_waits n) n e rest delay h, same)
          (retry_loop-Default (advance (next_delay s e).0) (suc n) rest d' (omega arith) quiet.1)
  ]

  -- When no failure speaks of overload or limits, at most three attempts are made, and the waits
  -- between them are the first of 500 and 1000 milliseconds.
  pub complete_default :
      (attempts : List (Attempt A))
      → NoKeyword attempts
      → let o = complete attempts in
        (o.attempts ≤ 3) × ((o.slept ≡ []) ⊎ (o.slept ≡ 500 ∷ []) ⊎ (o.slept ≡ 1000 ∷ 500 ∷ []))
  unfolding complete
  complete_default attempts quiet =
      let (few, m, small, waits) =
        retry_loop-Default fresh 0 attempts (record { budget = refl; num = refl; idx = refl })
          (omega arith) quiet in
      (few, first_waits m small waits)

  -- Which attempts emitted output, but for the last that was made.
  abbrev pub QuietBefore : ℕ → List (Bool × Attempt A) → Type 0
  QuietBefore zero attempts = Unit
  QuietBefore (suc zero) attempts = Unit
  QuietBefore (suc (suc n)) [] = Unit
  QuietBefore (suc (suc n)) ((emitted, a) ∷ rest) = (emitted ≡ false) × QuietBefore (suc n) rest

  QuietBefore-cons :
      (k : ℕ) (e : StreamError) (rest : List (Bool × Attempt A))
      → QuietBefore k rest
      → QuietBefore (suc k) ((false, failed e) ∷ rest)
  QuietBefore-cons zero e rest q = tt
  QuietBefore-cons (suc k) e rest q = (refl, q)

  retry_loop_quiet :
      (s : RetryState) (slept : List ℕ) (n : ℕ) (attempts : List (Bool × Attempt A))
      → (k : ℕ) × ((retry_loop s slept n (settle_all attempts)).attempts ≡ n + k)
        × QuietBefore k attempts
  unfolding settle_all
  retry_loop_quiet s slept n [] = rw (loop_empty s slept n) (0, omega arith, tt)
  retry_loop_quiet s slept n ((emitted, done a) ∷ rest) =
      rw (loop_done s slept n a (settle_all rest)) (1, omega arith, tt)
  retry_loop_quiet s slept n ((true, failed e) ∷ rest) =
      rw (loop_gives_up s slept n _ (settle_all rest) (fatal_ends s _ (settle_emitted e)))
        (1, omega arith, tt)
  retry_loop_quiet s slept n ((false, failed e) ∷ rest) = elim (wait_cases s e) [
    | inl h ↦ rw (loop_gives_up s slept n e (settle_all rest) h) (1, omega arith, tt)
    | inr (delay, h) ↦
        let (k, same, quiet) =
          retry_loop_quiet (advance (next_delay s e).0) (delay ∷ slept) (suc n) rest in
        rw (loop_goes_on s slept n e (settle_all rest) delay h)
          (suc k, omega (arith, same), QuietBefore-cons k e rest quiet)
  ]

  -- Of the attempts that `stream_completion` makes, no other than the last has emitted output.
  pub stream_completion_quiet :
      (attempts : List (Bool × Attempt A))
      → QuietBefore (stream_completion attempts).attempts attempts
  unfolding stream_completion
  stream_completion_quiet attempts =
      let (k, same, quiet) = retry_loop_quiet fresh [] 0 attempts in
      subst (λ (m : ℕ). QuietBefore m attempts) (omega (arith, same)) quiet
