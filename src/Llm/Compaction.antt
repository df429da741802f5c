-- ===== src/Llm/Compaction.antt =====
-- loop/src/compaction.rs: the older part of a conversation is replaced by a summary. The model's
-- answer comes from `complete` of `LlmService`, a parameter; an `anyhow` error is its text.
pub mod Split
pub mod Pairs
pub mod Results
pub mod Closed
pub mod Examples
use Prim.Native.String.{String}
use overacp.Llm.Retry.{complete}
use overacp.Llm.Types.{
  Content, Message, Role, ToolCall, as_text, assistant, estimate_content, extract_text, join, plain,
  system, tool, user,
}
use overacp.Prelude.Result.{Result, map_ok, ok, ok_or, ◌>>=◌}
use overacp.Prelude.Texts.{push_str}
use overacp.Prelude.{
  Bool, List, Option, [], drop, false, if◌then◌else◌, leb, length, ltb, nat_eq, none, not, retain,
  some, string_eq, suc, take, true, zero, ℕ, ◌&&◌, ◌++◌, ◌+◌, ◌-◌, ◌==◌, ◌∷◌,
}

-- `CompletionResponse` (loop/src/llm/types.rs), by the parts that `summarize` reads.
pub record Choice : Type 0 where
  pub message : Option Message

pub record CompletionResponse : Type 0 where
  pub choices : List Choice

pub record CompactionResult : Type 0 where
  pub working_messages : List Message
  pub canonical_messages : List Message
  pub summary : String

-- The set of the unanswered calls' ids: a list from which `remove` takes every copy.
unfoldable pub insert_calls : List ToolCall → List String → List String
insert_calls [] unanswered = unanswered
insert_calls (c ∷ calls) unanswered = insert_calls calls (c.id ∷ unanswered)

unfoldable pub remove_id : String → List String → List String
remove_id i unanswered = retain (λ j. not (j == i)) unanswered

abbrev pub called : Option (List ToolCall) → List String → List String
called none unanswered = unanswered
called (some calls) unanswered = insert_calls calls unanswered

abbrev pub answered : Option String → List String → List String
answered none unanswered = unanswered
answered (some i) unanswered = remove_id i unanswered

abbrev pub by_role : Role → Message → List String → List String
by_role assistant m unanswered = called m.tool_calls unanswered
by_role tool m unanswered = answered m.tool_call_id unanswered
by_role system m unanswered = unanswered
by_role user m unanswered = unanswered

-- What the loop of `has_straddling_pair` leaves unanswered.
unfoldable pub pending : List Message → List String → List String
pending [] unanswered = unanswered
pending (m ∷ ms) unanswered = pending ms (by_role m.role m unanswered)

abbrev pub is_nil : List String → Bool
is_nil [] = true
is_nil (x ∷ xs) = false

-- `&messages[start..split]`
abbrev pub slice_of : List Message → ℕ → ℕ → List Message
slice_of messages start split = take (split - start) (drop start messages)

unfoldable pub has_straddling_pair : List Message → ℕ → ℕ → Bool
has_straddling_pair messages start split = not (is_nil (pending (slice_of messages start split) []))

-- The `while` loop, from a split downwards.
unfoldable pub walk_back : List Message → ℕ → ℕ → ℕ
walk_back messages start zero = zero
walk_back messages start (suc n) =
    let earlier = walk_back messages start n in
    if ltb start (suc n) && has_straddling_pair messages start (suc n) then earlier else suc n

abbrev pub min : ℕ → ℕ → ℕ
min a b = if leb a b then a else b

unfoldable pub find_safe_split : List Message → ℕ → ℕ → ℕ
find_safe_split messages start proposed = walk_back messages start (min proposed (length messages))

abbrev pub role_name : Role → String
role_name user = "User"
role_name assistant = "Assistant"
role_name tool = "Tool"
role_name system = "System"

abbrev pub text_of : Option Content → Option String
text_of none = none
text_of (some c) = extract_text c

-- `conversation_text`, before the parts are joined.
unfoldable pub conversation : List Message → List String
conversation [] = []
conversation (m ∷ ms) =
    let rest = conversation ms in
    elim (text_of m.content) [
      | none ↦ rest
      | some t ↦ push_str (role_name m.role) (push_str ": " t) ∷ rest
    ]

abbrev pub compaction_prompt : String
compaction_prompt =
    "You are summarizing a conversation between a user and an AI assistant. Preserve all important context: decisions made, files modified, key findings, current task state, and any commitments or next steps. Be concise but complete — this summary replaces the original messages."

abbrev pub plain_message : Role → String → Message
plain_message r s = record {
  role = r;
  content = some (plain s);
  tool_calls = none;
  tool_call_id = none;
}

unfoldable pub summary_messages : List Message → List Message
summary_messages messages =
    plain_message system compaction_prompt
    ∷ plain_message user
        (push_str "Summarize this conversation:\n\n" (join "\n\n" (conversation messages)))
    ∷ []

abbrev content_text : Option Content → Option String
content_text none = none
content_text (some c) = as_text c

abbrev message_text : Option Message → Option String
message_text none = none
message_text (some m) = content_text m.content

-- `response.choices.first()` down to its text.
unfoldable pub response_text : List Choice → Option String
response_text [] = none
response_text (c ∷ cs) = message_text c.message

unfoldable pub summarize :
    (List Message → Result String CompletionResponse) → List Message → Result String String
summarize complete messages = complete (summary_messages messages) >>= λ response.
    ok_or (response_text response.choices) "compaction returned empty response"

-- `messages.first().filter(|m| m.role == Role::System)`
abbrev if_system : Role → Message → Option Message
if_system system m = some m
if_system user m = none
if_system assistant m = none
if_system tool m = none

unfoldable pub system_message : List Message → Option Message
system_message [] = none
system_message (m ∷ ms) = if_system m.role m

abbrev pub start_of : Option Message → ℕ
start_of none = 0
start_of (some m) = 1

abbrev pub system_part : Option Message → List Message
system_part none = []
system_part (some m) = m ∷ []

abbrev pub unchanged : List Message → CompactionResult
unchanged messages = record {
  working_messages = messages;
  canonical_messages = messages;
  summary = "";
}

unfoldable pub context_message : String → Message
context_message s =
    plain_message system (push_str "<compacted_context>\n" (push_str s "\n</compacted_context>"))

unfoldable pub compacted : List Message → ℕ → String → CompactionResult
compacted messages split s = record {
  working_messages =
      system_part (system_message messages) ++ context_message s ∷ drop split messages;
  canonical_messages = drop split messages;
  summary = s;
}

abbrev pub proposed_split : List Message → ℕ → ℕ
proposed_split messages keep_recent =
    find_safe_split messages (start_of (system_message messages)) (length messages - keep_recent)

unfoldable pub compact_messages :
    (List Message → Result String CompletionResponse)
    → List Message
    → ℕ
    → Result String CompactionResult
compact_messages complete messages keep_recent =
    let start = start_of (system_message messages) in
    let split = proposed_split messages keep_recent in
    if leb (length messages) (keep_recent + 2)
    then ok (unchanged messages)
    else if leb split start
    then ok (unchanged messages)
    else map_ok (compacted messages split) (summarize complete (slice_of messages start split))

-- `estimate_tokens`
unfoldable pub estimate_tokens : List Message → ℕ
estimate_tokens [] = 0
estimate_tokens (m ∷ ms) = elim m.content [
  | none ↦ estimate_tokens ms
  | some c ↦ estimate_content c + estimate_tokens ms
]
