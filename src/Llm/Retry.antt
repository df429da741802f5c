-- ===== src/Llm/Retry.antt =====
-- loop/src/llm/retry.rs: which errors are retried, how often, and after what delay; with the retry
-- loop of `complete` and `stream_completion` (loop/src/llm/client.rs). Delays are milliseconds. The
-- `source` of an error, which only the logs show, is left out.
pub mod Bounds
pub mod Outcomes
pub mod Examples
use Prim.Native.Char.{code}
use Prim.Native.String.{String}
use overacp.Prelude.Result.{Result, err, ok}
use overacp.Prelude.Texts.{push_str}
use overacp.Prelude.{
  Bool, List, Option, [], any, false, if◌then◌else◌, leb, ltb, nat_beq, none, not, some, true, ℕ,
  ◌&&◌, ◌*◌, ◌+◌, ◌^◌, ◌||◌, ◌∷◌,
}

pub data StreamError : Type 0 where
  retryable fatal : String → Option String → StreamError

unfoldable pub is_retryable : StreamError → Bool
is_retryable (retryable message body) = true
is_retryable (fatal message body) = false

unfoldable pub message_of : StreamError → String
message_of (retryable message body) = message
message_of (fatal message body) = message

abbrev pub or_message : String → Option String → String
or_message message none = message
or_message message (some body) = body

unfoldable pub keyword_haystack : StreamError → String
keyword_haystack (retryable message body) = or_message message body
keyword_haystack (fatal message body) = or_message message body

unfoldable pub into_fatal_with_prefix : String → StreamError → StreamError
into_fatal_with_prefix pre (fatal message body) = fatal message body
into_fatal_with_prefix pre (retryable message body) =
    fatal (push_str pre (push_str ": " message)) none

-- `classify_http_response`; `shown` is the printed status.
unfoldable pub classify_http_response : ℕ → String → String → StreamError
classify_http_response status shown body =
    let message = push_str "LLM HTTP " (push_str shown (push_str ": " body)) in
    if nat_beq status 429 || (leb 500 status && ltb status 600)
    then retryable message (some body)
    else fatal message (some body)

-- What a `reqwest::Error` says of itself; the crate decides these.
pub record ReqwestError : Type 0 where
  pub is_timeout : Bool
  pub is_connect : Bool
  pub is_body : Bool
  pub is_decode : Bool
  pub status : Option ℕ
  pub shown : String

abbrev after_time : String → String → String → String
after_time what elapsed shown =
    push_str what (push_str " after " (push_str elapsed (push_str "s: " shown)))

abbrev by_status : String → String → String → Option ℕ → StreamError
by_status elapsed status_text shown none = retryable (after_time "Stream error" elapsed shown) none
by_status elapsed status_text shown (some status) =
    if leb 500 status && ltb status 600
    then retryable
        (after_time (push_str "Server error " (push_str status_text " during stream")) elapsed
          shown)
        none
    else fatal
        (after_time (push_str "Client error " (push_str status_text " during stream")) elapsed
          shown)
        none

-- `elapsed` and `status_text` are the texts of the time and of the status.
unfoldable pub classify_reqwest_error : ReqwestError → String → String → StreamError
classify_reqwest_error e elapsed status_text =
    if e.is_timeout
    then retryable (after_time "Stream read timed out" elapsed e.shown) none
    else if e.is_connect
    then retryable (after_time "Connection error during stream" elapsed e.shown) none
    else if e.is_body || e.is_decode
    then retryable (after_time "Stream body error (possible connection reset)" elapsed e.shown) none
    else by_status elapsed status_text e.shown e.status

-- `to_ascii_lowercase` and `contains` over code points, on which they agree with bytes.
abbrev pub codes : String → List ℕ
codes String.[] = []
codes (String.◌∷◌ c s) = code c ∷ codes s

unfoldable pub to_ascii_lowercase : List ℕ → List ℕ
to_ascii_lowercase [] = []
to_ascii_lowercase (c ∷ cs) =
    (if leb b'A' c && leb c b'Z' then c + 32 else c) ∷ to_ascii_lowercase cs

unfoldable pub is_prefix : List ℕ → List ℕ → Bool
is_prefix [] t = true
is_prefix (p ∷ ps) [] = false
is_prefix (p ∷ ps) (c ∷ cs) = nat_beq p c && is_prefix ps cs

unfoldable pub contains : List ℕ → List ℕ → Bool
unfolding is_prefix
contains [] p = is_prefix p []
contains (c ∷ cs) p = is_prefix p (c ∷ cs) || contains cs p

abbrev pub transient_keywords : List String
transient_keywords =
    "overload" ∷ "unavailable" ∷ "limit" ∷ "quota" ∷ "capacity" ∷ "throttle" ∷ "congestion" ∷ []

unfoldable pub contains_transient_keyword : String → Bool
unfolding to_ascii_lowercase contains
contains_transient_keyword s =
    let lower = to_ascii_lowercase (codes s) in
    any (λ (k : String). contains lower (codes k)) transient_keywords

pub record RetryBudget : Type 0 where
  pub max_attempts : ℕ
  pub base_delay : ℕ
  pub escalated : Bool

abbrev pub default_budget : RetryBudget
default_budget = record { max_attempts = 3; base_delay = 500; escalated = false }

abbrev pub escalated_budget : RetryBudget
escalated_budget = record { max_attempts = 5; base_delay = 2000; escalated = true }

-- `base_delay * 2u32.pow(retry_index)`, with no wrap-around: the exponent stays small.
unfoldable pub delay_for : RetryBudget → ℕ → ℕ
delay_for budget retry_index = budget.base_delay * 2 ^ retry_index

unfoldable pub escalate_if_transient : RetryBudget → StreamError → RetryBudget
escalate_if_transient budget e =
    if not budget.escalated && contains_transient_keyword (keyword_haystack e)
    then escalated_budget
    else budget

pub record RetryState : Type 0 where
  pub budget : RetryBudget
  pub attempt_num : ℕ
  pub exponent_idx : ℕ

abbrev pub fresh : RetryState
fresh = record { budget = default_budget; attempt_num = 1; exponent_idx = 0 }

unfoldable pub next_delay : RetryState → StreamError → RetryState × Option ℕ
unfolding escalate_if_transient
next_delay s e =
    let upgraded = escalate_if_transient s.budget e in
    let escalated_now = upgraded.escalated && not s.budget.escalated in
    let s' = record s { budget = upgraded } in
    if not (is_retryable e) || leb upgraded.max_attempts s.attempt_num
    then (s', none)
    else (let s'' = if escalated_now then record s' { exponent_idx = 0 } else s' in
        (s'', some (delay_for s''.budget s''.exponent_idx)))

unfoldable pub advance : RetryState → RetryState
advance s = record s { attempt_num = s.attempt_num + 1; exponent_idx = s.exponent_idx + 1 }

-- What one attempt ends with.
pub data Attempt (A : Type 0) : Type 0 where
  done : A → Attempt A
  failed : StreamError → Attempt A

-- How the loop ends: with a value, with the error that is handed to the caller, or by waiting for an
-- attempt that the list does not hold. `slept` are the delays, the last one first.
pub record Outcome (A : Type 0) : Type 0 where
  pub result : Option (Result StreamError A)
  pub slept : List ℕ
  pub attempts : ℕ

module _ {A : Type 0} where
  abbrev give_up : StreamError → List ℕ → ℕ → Outcome A
  give_up e slept n = record { result = some (err e); slept = slept; attempts = n }

  -- The retry loop over the outcomes of the attempts, in their order, through `handle_failure`.
  unfoldable pub retry_loop : RetryState → List ℕ → ℕ → List (Attempt A) → Outcome A
  unfolding next_delay advance
  retry_loop s slept n [] = record { result = none; slept = slept; attempts = n }
  retry_loop s slept n (done a ∷ rest) = record {
    result = some (ok a);
    slept = slept;
    attempts = n + 1;
  }
  retry_loop s slept n (failed e ∷ rest) =
      let (s', wait) = next_delay s e in
      elim wait [
        | none ↦ give_up e slept (n + 1)
        | some delay ↦ retry_loop (advance s') (delay ∷ slept) (n + 1) rest
      ]

  unfoldable pub complete : List (Attempt A) → Outcome A
  unfolding retry_loop
  complete attempts = retry_loop fresh [] 0 attempts

  -- An attempt of `stream_completion`, with whether it emitted output. A retryable error after output
  -- is made fatal.
  unfoldable pub settle : Bool × Attempt A → Attempt A
  unfolding is_retryable into_fatal_with_prefix
  settle (emitted, done a) = done a
  settle (emitted, failed e) = failed (
      if emitted && is_retryable e
      then into_fatal_with_prefix
          "mid-stream error after partial output emitted; cannot retry safely" e
      else e)

  unfoldable pub settle_all : List (Bool × Attempt A) → List (Attempt A)
  unfolding settle
  settle_all [] = []
  settle_all (a ∷ rest) = settle a ∷ settle_all rest

  unfoldable pub stream_completion : List (Bool × Attempt A) → Outcome A
  unfolding retry_loop settle_all
  stream_completion attempts = retry_loop fresh [] 0 (settle_all attempts)
