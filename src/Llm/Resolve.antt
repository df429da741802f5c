-- ===== src/Llm/Resolve.antt =====
-- loop/src/llm/resolve.rs: the images that a message names by a file are read into it. The reading of a
-- file, with its base64 text, and the extension of a path are parameters.
use Prim.Native.String.{String}
use overacp.Json.{Members, Value, as_str, get_key, member, no_member, object, string}
use overacp.Llm.Types.{
  Content, ContentBlock, Message, TypedBlock, blocks, image, image_url, input_audio, known, plain,
  text, unknown,
}
use overacp.Prelude.Result.{Result, err, map_ok, ok, ok_or, ◌>>=◌}
use overacp.Prelude.Texts.{push_str, strip_prefix}
use overacp.Prelude.{List, Option, if◌then◌else◌, map, nat_eq, none, some, string_eq, ◌==◌, ◌||◌}

pub record Files : Type 0 where
  -- The extension in lower case, and the encoded bytes.
  pub extension : String → Option String
  pub read_encoded : String → Result String String

unfoldable pub mime_from_extension : Option String → Option String
mime_from_extension none = none
mime_from_extension (some ext) =
    if ext == "png"
    then some "image/png"
    else if (ext == "jpg") || (ext == "jpeg")
    then some "image/jpeg"
    else if ext == "gif"
    then some "image/gif"
    else if ext == "webp"
    then some "image/webp"
    else if ext == "pdf"
    then some "application/pdf"
    else none

-- `image_url["url"] = …`
unfoldable pub set_member : String → Value → Members → Members
set_member key v no_member = member key v no_member
set_member key v (member k w rest) =
    let later = set_member key v rest in if k == key then member k v rest else member k w later

abbrev set_url : Value → String → Value
set_url (object members) url = object (set_member "url" (string url) members)
set_url v url = v

abbrev url_of : Option Value → Option String
url_of none = none
url_of (some v) = as_str v

module _ (files : Files) where
  unfoldable pub resolve_file_url : String → Result String String
  resolve_file_url path_str =
      ok_or (mime_from_extension (files.extension path_str))
        (push_str "unsupported file extension: " path_str)
      >>= λ mime.
          map_ok (λ encoded. push_str "data:" (push_str mime (push_str ";base64," encoded)))
            (files.read_encoded path_str)

  abbrev resolved_as : Value → String → Result String String → ContentBlock
  resolved_as v path_str (ok data_url) = image_url (set_url v data_url)
  resolved_as v path_str (err e) =
      text (push_str "[Image not available: " (push_str path_str (push_str ": " (push_str e "]"))))

  abbrev by_path : Value → Option String → ContentBlock
  by_path v none = image_url v
  by_path v (some rest) = resolved_as v (push_str "/" rest) (resolve_file_url (push_str "/" rest))

  abbrev by_url : Value → Option String → ContentBlock
  by_url v none = image_url v
  by_url v (some url) = by_path v (strip_prefix url "file:///")

  unfoldable pub resolve_content_block : ContentBlock → ContentBlock
  resolve_content_block (image_url v) = by_url v (url_of (get_key v "url"))
  resolve_content_block (text s) = text s
  resolve_content_block (image v) = image v
  resolve_content_block (input_audio v) = input_audio v

  abbrev resolve_typed : TypedBlock → TypedBlock
  resolve_typed (known block) = known (resolve_content_block block)
  resolve_typed (unknown v) = unknown v

  abbrev resolve_content : Option Content → Option Content
  resolve_content (some (blocks bs)) = some (blocks (map resolve_typed bs))
  resolve_content (some (plain s)) = some (plain s)
  resolve_content none = none

  unfoldable pub resolve_file_urls_in_message : Message → Message
  resolve_file_urls_in_message m = record m { content = resolve_content m.content }

  unfoldable pub resolve_file_urls : List Message → List Message
  resolve_file_urls messages = map resolve_file_urls_in_message messages
