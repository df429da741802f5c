-- ===== src/Llm/Compaction/Closed.antt =====
-- loop/src/compaction.rs: a compaction leaves no more calls open than there were.
use overacp.Llm.Compaction.Pairs.{drop-drop, is_nil-true, not-false}
use overacp.Llm.Compaction.Results.{compact_messages_cases, proposed_split-IsSafe}
use overacp.Llm.Compaction.Split.{IsSafe}
use overacp.Llm.Compaction.{
  CompactionResult, CompletionResponse, by_role, compact_messages, compacted, context_message,
  has_straddling_pair, if_system, is_nil, pending, start_of, system_message, system_part,
}
use overacp.Llm.Types.{Message, Role, assistant, system, tool, user}
use overacp.Prelude.Result.{Result, ok}
use overacp.Prelude.{
  List, String, [], ap, arith, drop, inl, inr, refl, sym, take, take-append-drop, true, ℕ, ◌++◌,
  ◌-◌, ◌<◌, ◌∙◌, ◌∷◌, ◌≡◌,
}

pub pending-append :
    (calls : List String) (xs ys : List Message)
    → pending (xs ++ ys) calls ≡ pending ys (pending xs calls)
unfolding pending
pending-append calls [] ys = refl
pending-append calls (m ∷ ms) ys = pending-append (by_role m.role m calls) ms ys

pending-drop :
    (ms : List Message) (n : ℕ)
    → is_nil (pending (take n ms) []) ≡ true
    → pending (drop n ms) [] ≡ pending ms []
pending-drop ms n safe =
    ap (pending (drop n ms)) (sym (is_nil-true _ safe))
    ∙ sym (pending-append [] (take n ms) (drop n ms))
    ∙ ap (λ l. pending l []) (take-append-drop n ms)

pending-tail :
    (r : Role) (m : Message) (ms : List Message)
    → m.role ≡ r
    → pending (drop (start_of (if_system r m)) (m ∷ ms)) [] ≡ pending (m ∷ ms) []
unfolding pending
pending-tail system m ms e = rw e refl
pending-tail user m ms e = refl
pending-tail assistant m ms e = refl
pending-tail tool m ms e = refl

pending-start :
    (ms : List Message) → pending (drop (start_of (system_message ms)) ms) [] ≡ pending ms []
unfolding system_message
pending-start [] = refl
pending-start (m ∷ ms) = pending-tail m.role m ms refl

pending-safe :
    (ms : List Message) (split : ℕ)
    → start_of (system_message ms) < split
    → IsSafe ms (start_of (system_message ms)) split
    → pending (drop split ms) [] ≡ pending ms []
unfolding has_straddling_pair
pending-safe ms split later safe =
    let start = start_of (system_message ms) in
    ap (λ l. pending l []) (sym (drop-drop start split ms (omega arith)))
    ∙ pending-drop (drop start ms) (split - start) (not-false _ safe)
    ∙ pending-start ms

pending-head :
    (m : Message) (s : String) (recent : List Message) (r : Role)
    → m.role ≡ r
    → pending (system_part (if_system r m) ++ context_message s ∷ recent) [] ≡ pending recent []
unfolding pending context_message
pending-head m s recent system e = rw e refl
pending-head m s recent user e = refl
pending-head m s recent assistant e = refl
pending-head m s recent tool e = refl

pending-working :
    (ms : List Message) (s : String) (recent : List Message)
    → pending (system_part (system_message ms) ++ context_message s ∷ recent) [] ≡ pending recent []
unfolding pending context_message system_message
pending-working [] s recent = refl
pending-working (m ∷ ms) s recent = pending-head m s recent m.role refl

-- The messages for the model leave open what the history left open.
pub compact_messages-pending :
    (llm : List Message → Result String CompletionResponse) (messages : List Message)
    (keep_recent : ℕ) (r : CompactionResult)
    → compact_messages llm messages keep_recent ≡ ok r
    → pending r.working_messages [] ≡ pending messages []
unfolding compacted
compact_messages-pending llm messages keep_recent r h =
    elim (compact_messages_cases llm messages keep_recent r h) [
      | inl e ↦ ap (λ c. pending c.working_messages []) e
      | inr (s, e, long, later) ↦
          ap (λ c. pending c.working_messages []) e
          ∙ pending-working messages s _
          ∙ pending-safe messages _ later (proposed_split-IsSafe messages keep_recent long later).0
    ]
