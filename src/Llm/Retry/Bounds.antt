-- ===== src/Llm/Retry/Bounds.antt =====
-- loop/src/llm/retry.rs: how often and how long the retry loop tries.
-- The state before an attempt, after `n` that failed.
use overacp.Llm.Retry.{
  RetryState, StreamError, advance, default_budget, delay_for, escalated_budget, fresh, next_delay,
}
use overacp.Prelude.{arith, inl, inr, refl, some, suc, zero, ℕ, ◌+◌, ◌<◌, ◌^◌, ◌≡◌, ◌≤◌, ◌⊎◌}

pub record Inv (s : RetryState) (n : ℕ) : Type 0 where
  pub num : s.attempt_num ≡ n + 1
  pub budget :
      ((s.budget ≡ default_budget) × (n < 3) × (s.exponent_idx ≡ n))
      ⊎ ((s.budget ≡ escalated_budget) × (n < 5) × (s.exponent_idx ≤ n))

pub fresh-Inv : Inv fresh 0
fresh-Inv = record { num = refl; budget = inl (refl, omega arith, refl) }

pow_small : (i : ℕ) → i ≤ 3 → 2 ^ i ≤ 8
pow_small zero h = omega arith
pow_small (suc zero) h = omega arith
pow_small (suc (suc zero)) h = omega arith
pow_small (suc (suc (suc zero))) h = omega arith
pow_small (suc (suc (suc (suc i)))) h = absurd (omega arith)

delay_for-default : (i : ℕ) → i ≤ 3 → delay_for default_budget i ≤ 16000
unfolding delay_for
delay_for-default i h = omega (arith, pow_small i h)

delay_for-escalated : (i : ℕ) → i ≤ 3 → delay_for escalated_budget i ≤ 16000
unfolding delay_for
delay_for-escalated i h = omega (arith, pow_small i h)

-- A retry that is granted keeps the state in order, and waits for 16 seconds at most.
pub next_delay-Inv :
    (s : RetryState) (n : ℕ) (e : StreamError) (delay : ℕ)
    → Inv s n
    → (next_delay s e).1 ≡ some delay
    → Inv (advance (next_delay s e).0) (suc n) × (delay ≤ 16000)
unfolding next_delay advance
next_delay-Inv s n e delay v granted = (
  record {
    num = ground arith;
    budget = elim v.budget [ inl (b, few, i) ↦ ground arith | inr (b, few, i) ↦ ground arith ];
  },
  elim v.budget [
    | inl (b, few, i) ↦ ground (arith, delay_for-default s.exponent_idx, delay_for-escalated 0)
    | inr (b, few, i) ↦ ground (arith, delay_for-escalated s.exponent_idx, delay_for-escalated 0)
  ],
)
