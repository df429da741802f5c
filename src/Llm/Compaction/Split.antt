-- ===== src/Llm/Compaction/Split.antt =====
-- loop/src/compaction.rs: where the history is split, and what the two parts are.
-- A split that the walk accepts: nothing is left unanswered before it.
use overacp.Llm.Compaction.{find_safe_split, has_straddling_pair, min, walk_back}
use overacp.Llm.Types.{Message}
use overacp.Prelude.{List, arith, false, inl, inr, length, suc, true, zero, ℕ, ◌<◌, ◌≡◌, ◌≤◌, ◌⊎◌}

abbrev pub IsSafe : List Message → ℕ → ℕ → Type 0
IsSafe messages start split = has_straddling_pair messages start split ≡ false

walk_back-le : (messages : List Message) (start n : ℕ) → walk_back messages start n ≤ n
unfolding walk_back
walk_back-le messages start zero = omega arith
walk_back-le messages start (suc n) = ground (arith, walk_back-le messages start n)

walk_back-IsSafe :
    (messages : List Message) (start n : ℕ)
    → start < walk_back messages start n
    → IsSafe messages start (walk_back messages start n)
unfolding walk_back
walk_back-IsSafe messages start zero h = absurd (omega arith)
walk_back-IsSafe messages start (suc n) h = ground (arith, walk_back-IsSafe messages start n)

nat_cases : (k n : ℕ) → k ≤ suc n → (k ≤ n) ⊎ (k ≡ suc n)
nat_cases k n h = omega arith

walk_back_skipped :
    (messages : List Message) (start n k : ℕ)
    → walk_back messages start n < k
    → k ≤ n
    → has_straddling_pair messages start k ≡ true
unfolding walk_back
walk_back_skipped messages start zero k below above = absurd (omega arith)
walk_back_skipped messages start (suc n) k below above = elim (nat_cases k n above) [
  | inl le ↦ ground (arith, walk_back_skipped messages start n k)
  | inr e ↦ ground arith
]

walk_back-ge :
    (messages : List Message) (start n : ℕ) → start ≤ n → start ≤ walk_back messages start n
unfolding walk_back
walk_back-ge messages start zero h = h
walk_back-ge messages start (suc n) h = ground (arith, walk_back-ge messages start n)

-- For a start within the proposal, the split lies between the start and the proposal (or the end
-- of the history), is the start or safe, and every later split up to the proposal was unsafe.
pub find_safe_split_largest :
    (messages : List Message) (start proposed : ℕ)
    → start ≤ min proposed (length messages)
    → (start ≤ find_safe_split messages start proposed)
      × (find_safe_split messages start proposed ≤ min proposed (length messages))
      × (start < find_safe_split messages start proposed
          → IsSafe messages start (find_safe_split messages start proposed))
      × ((k : ℕ)
          → find_safe_split messages start proposed < k
          → k ≤ min proposed (length messages)
          → has_straddling_pair messages start k ≡ true)
unfolding find_safe_split
find_safe_split_largest messages start proposed h =
    let n = min proposed (length messages) in
    (
      walk_back-ge messages start n h,
      walk_back-le messages start n,
      walk_back-IsSafe messages start n,
      walk_back_skipped messages start n,
    )
