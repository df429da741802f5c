-- ===== src/Llm/Types.antt =====
-- loop/src/llm/types.rs: the messages of a conversation. A block that holds JSON which the program
-- never looks into keeps it as a value.
use Prim.Native.String.{String}
use overacp.Json.{Value}
use overacp.Prelude.Texts.{push_str, str_len}
use overacp.Prelude.{Bool, List, Option, [], false, none, some, true, ℕ, ◌+◌, ◌/◌, ◌∷◌}

pub data Role : Type 0 where
  system user assistant tool : Role

pub data ContentBlock : Type 0 where
  text : String → ContentBlock
  image_url : Value → ContentBlock
  image : Value → ContentBlock
  input_audio : Value → ContentBlock

pub data TypedBlock : Type 0 where
  known : ContentBlock → TypedBlock
  unknown : Value → TypedBlock

pub data Content : Type 0 where
  plain : String → Content
  blocks : List TypedBlock → Content

pub record FunctionCall : Type 0 where
  pub name : String
  pub arguments : String

pub record ToolCall : Type 0 where
  pub id : String
  pub call_type : String
  pub function : FunctionCall

pub record Message : Type 0 where
  pub role : Role
  pub content : Option Content
  pub tool_calls : Option (List ToolCall)
  pub tool_call_id : Option String

-- `TypedBlock::as_text`
unfoldable pub block_text : TypedBlock → Option String
block_text (known (text s)) = some s
block_text _ = none

unfoldable pub is_media : TypedBlock → Bool
is_media (known (text s)) = false
is_media (known (image_url v)) = true
is_media (known (image v)) = true
is_media (known (input_audio v)) = true
is_media (unknown v) = false

unfoldable pub block_tokens : TypedBlock → ℕ
block_tokens (known (text s)) = str_len s / 4
block_tokens (known (image_url v)) = 765
block_tokens (known (image v)) = 765
block_tokens (known (input_audio v)) = 0
block_tokens (unknown v) = 0

unfoldable pub sum_tokens : List TypedBlock → ℕ
unfolding block_tokens
sum_tokens [] = 0
sum_tokens (b ∷ bs) = block_tokens b + sum_tokens bs

-- `Content::as_text`, `extract_text` and `estimate_tokens`
unfoldable pub as_text : Content → Option String
as_text (plain s) = some s
as_text (blocks bs) = none

unfoldable pub block_texts : List TypedBlock → List String
unfolding block_text
block_texts [] = []
block_texts (b ∷ bs) = elim (block_text b) [ none ↦ block_texts bs | some s ↦ s ∷ block_texts bs ]

-- `join`
unfoldable pub join_after : String → String → List String → String
join_after separator first [] = first
join_after separator first (s ∷ rest) =
    push_str first (push_str separator (join_after separator s rest))

unfoldable pub join : String → List String → String
unfolding join_after
join separator [] = ""
join separator (s ∷ rest) = join_after separator s rest

abbrev some_text : List String → Option String
unfolding join
some_text [] = none
some_text (s ∷ rest) = some (join "\n" (s ∷ rest))

unfoldable pub extract_text : Content → Option String
unfolding block_texts join
extract_text (plain s) = some s
extract_text (blocks bs) = some_text (block_texts bs)

unfoldable pub estimate_content : Content → ℕ
unfolding sum_tokens
estimate_content (plain s) = str_len s / 4
estimate_content (blocks bs) = sum_tokens bs
