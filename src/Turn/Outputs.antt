-- ===== src/Turn/Outputs.antt =====
-- loop/src/agentic_loop.rs with loop/src/llm/tool_args.rs: the texts that the loop makes for the model
-- from a tool's arguments and from its output.
use overacp.Json.{
  Elements, Value, as_array, as_bool, as_str, element, get_key, member, no_element, no_member,
  object, string,
}
use overacp.Llm.Types.{
  Content, Message, TypedBlock, blocks, image_url, join, known, plain, system, text,
}
use overacp.Prelude.Result.{Result, err, ok}
use overacp.Prelude.Texts.{push_str, str_len}
use overacp.Prelude.{
  Bool, List, Option, String, [], false, if◌then◌else◌, map, nat_eq, none, some, string_eq, ℕ, ◌==◌,
  ◌∷◌,
}
use overacp.Turn.{
  Codec, JsonError, ToolContent, ToolOutput, image_base64, output_blocks, output_text,
  text_content_of,
}

pub data ParsedArguments : Type 0 where
  arguments_ok : Value → ParsedArguments
  arguments_failed : ℕ → String → ParsedArguments

-- What `format!` does with several parts.
abbrev pub concat : List String → String
concat [] = ""
concat (s ∷ rest) = push_str s (concat rest)

unfoldable pub truncation_tip : String → String
truncation_tip of_tool =
    if of_tool == "write"
    then "use edit to append in chunks of ~3000 chars instead of one large write"
    else if of_tool == "edit"
    then "break the replacement into multiple smaller edit calls"
    else "reduce the size of your arguments and retry"

unfoldable pub system_msg : String → Message
system_msg t = record {
  role = system;
  content = some (plain t);
  tool_calls = none;
  tool_call_id = none;
}

unfoldable pub output_block : ToolContent → TypedBlock
output_block (text_content_of t) = known (text t)
output_block (image_base64 bytes mime_type) = known (
    image_url (
      object
        (member "url" (string (concat ("data:" ∷ mime_type ∷ ";base64," ∷ bytes ∷ []))) no_member)))

unfoldable pub tool_output_to_content : ToolOutput → Content
tool_output_to_content (output_text s) = plain s
tool_output_to_content (output_blocks bs) = blocks (map output_block bs)

-- `value.get("isError").and_then(as_bool).unwrap_or(false)`
abbrev pub flag_of : Option Value → Bool
flag_of none = false
flag_of (some v) = elim (as_bool v) [ none ↦ false | some b ↦ b ]

abbrev text_member : Option Value → Option String
text_member none = none
text_member (some v) = as_str v

abbrev pub option_string_eq : Option String → String → Bool
option_string_eq none s = false
option_string_eq (some t) s = t == s

-- The texts of the blocks of type "text".
unfoldable pub element_texts : Elements → List String
element_texts no_element = []
element_texts (element block rest) =
    let texts = element_texts rest in
    if option_string_eq (text_member (get_key block "type")) "text"
    then elim (text_member (get_key block "text")) [ none ↦ texts | some t ↦ t ∷ texts ]
    else texts

abbrev array_texts : Option Elements → List String
array_texts none = []
array_texts (some items) = element_texts items

abbrev content_texts : Option Value → List String
content_texts none = []
content_texts (some v) = array_texts (as_array v)

abbrev by_error : Bool → String → Result String ToolOutput
by_error is_error t = if is_error then err t else ok (output_text t)

module _ (codec : Codec) where
  -- `error_message`, for both kinds of a JSON error.
  unfoldable pub arguments_error : String → ℕ → JsonError → String
  arguments_error of_tool char_count parse_err =
      if parse_err.is_eof
      then concat (
          "tool arguments were truncated ("
          ∷ codec.of_nat char_count
          ∷ " chars of incomplete JSON).\nYour "
          ∷ of_tool
          ∷ " content was too large for a single tool call.\nAction: "
          ∷ truncation_tip of_tool
          ∷ [])
      else concat (
          "tool arguments failed to parse as JSON ("
          ∷ codec.of_nat char_count
          ∷ " chars): "
          ∷ parse_err.shown
          ∷ ".\nFix the JSON syntax and retry. If the arguments are large, also: "
          ∷ truncation_tip of_tool
          ∷ [])

  abbrev parsed : String → String → Result JsonError Value → ParsedArguments
  parsed of_tool raw (ok v) = arguments_ok v
  parsed of_tool raw (err e) =
      arguments_failed (str_len raw) (arguments_error of_tool (str_len raw) e)

  unfoldable pub parse_tool_arguments : String → String → ParsedArguments
  parse_tool_arguments of_tool raw = parsed of_tool raw (codec.parse raw)

  unfoldable pub extract_acp_tool_result : Value → Result String ToolOutput
  extract_acp_tool_result value =
      let is_error = flag_of (get_key value "isError") in
      let t = join "\n" (content_texts (get_key value "content")) in
      if t == "" then by_error is_error (codec.print value) else by_error is_error t
