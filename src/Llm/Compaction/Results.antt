-- ===== src/Llm/Compaction/Results.antt =====
-- loop/src/compaction.rs: what a successful `compact_messages` returns.
use overacp.Llm.Compaction.Pairs.{answers_all, answers_all-safe, answers_all-working}
use overacp.Llm.Compaction.Split.{IsSafe, find_safe_split_largest}
use overacp.Llm.Compaction.{
  CompactionResult, CompletionResponse, compact_messages, compacted, proposed_split, slice_of,
  start_of, summarize, system_message, unchanged,
}
use overacp.Llm.Types.{Message}
use overacp.Prelude.Result.{Result, Result-cases, ok}
use overacp.Prelude.{
  List, Option, String, [], arith, inl, inr, length, none, some, subst, sym, true, ℕ, ◌+◌, ◌-◌, ◌<◌,
  ◌≡◌, ◌≤◌, ◌⊎◌,
}

pub compact_messages_cases :
    (llm : List Message → Result String CompletionResponse) (messages : List Message)
    (keep_recent : ℕ) (r : CompactionResult)
    → compact_messages llm messages keep_recent ≡ ok r
    → (r ≡ unchanged messages)
      ⊎ ((s : String) × (r ≡ compacted messages (proposed_split messages keep_recent) s)
          × (keep_recent + 2 < length messages)
          × (start_of (system_message messages) < proposed_split messages keep_recent))
unfolding compact_messages
compact_messages_cases llm messages keep_recent r h = ground (
  arith,
  Result-cases (
      summarize llm (
        slice_of messages (start_of (system_message messages))
          (proposed_split messages keep_recent))),
)

start_of-le : (o : Option Message) → start_of o ≤ 1
start_of-le none = omega arith
start_of-le (some m) = omega arith

pub proposed_split-IsSafe :
    (messages : List Message) (keep_recent : ℕ)
    → keep_recent + 2 < length messages
    → start_of (system_message messages) < proposed_split messages keep_recent
    → IsSafe messages (start_of (system_message messages)) (proposed_split messages keep_recent)
      × (proposed_split messages keep_recent + keep_recent ≤ length messages)
proposed_split-IsSafe messages keep_recent long later =
    let small = start_of-le (system_message messages) in
    let largest =
      find_safe_split_largest messages (start_of (system_message messages))
        (length messages - keep_recent) (ground arith) in
    (largest.2 later, ground arith)

abbrev IsPaired : CompactionResult → Type 0
IsPaired r =
    (answers_all [] r.canonical_messages ≡ true) × (answers_all [] r.working_messages ≡ true)

-- If every tool response of the history answers a call that is open before it, then a successful
-- compaction, for any number of recent messages, leaves the same true of the messages to persist
-- and of the messages for the model: no response is separated from its call.
pub compact_messages_paired :
    (llm : List Message → Result String CompletionResponse) (messages : List Message)
    (keep_recent : ℕ) (r : CompactionResult)
    → answers_all [] messages ≡ true
    → compact_messages llm messages keep_recent ≡ ok r
    → (answers_all [] r.canonical_messages ≡ true) × (answers_all [] r.working_messages ≡ true)
unfolding compacted
compact_messages_paired llm messages keep_recent r paired h =
    elim (compact_messages_cases llm messages keep_recent r h) [
      | inl e ↦ subst IsPaired (sym e) (paired, paired)
      | inr (s, e, long, later) ↦
          let recent =
            answers_all-safe messages (proposed_split messages keep_recent) paired later
              (proposed_split-IsSafe messages keep_recent long later).0 in
          subst IsPaired (sym e) (recent, answers_all-working messages s _ recent)
    ]

abbrev NoLonger : List Message → CompactionResult → Type 0
NoLonger messages r = length r.working_messages ≤ length messages
