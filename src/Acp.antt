-- ===== src/Acp.antt =====
-- loop/src/acp.rs: the client of the agent's side. What is still to be read is a list of lines, each of
-- which may be an error of the reader; the writer is a parameter with its two operations, and so
-- are the functions of `serde_json`. An `anyhow` error is its text, so a `context` replaces it.
pub mod Boot
pub mod Frames
pub mod Service
pub mod Queue
pub mod Pushes
pub mod Order
pub mod Examples
use overacp.Config.{flush}
use overacp.Json.{Members, Value, get_key, integer, member, no_member, null, number, object, string}
use overacp.Prelude.Int.{pos}
use overacp.Prelude.Result.{Result, err, ok, ok_or}
use overacp.Prelude.Texts.{push_str}
use overacp.Prelude.{
  Bool, List, Option, String, [], if◌then◌else◌, is_some, none, not, some, suc, ℕ, ◌&&◌, ◌++◌, ◌∷◌,
}

-- `JsonRpcResponse` and `JsonRpcNotification`, by the fields that are read.
pub record JsonRpcResponse : Type 0 where
  pub result : Option Value
  pub error : Option String

pub record JsonRpcNotification : Type 0 where
  pub method : String
  pub params : Value

-- `from_str` into a value and into a notification, `from_value` into a response, and `to_string`.
pub record Wire : Type 0 where
  pub from_str : String → Option Value
  pub notification_from_str : String → Option JsonRpcNotification
  pub response_from_value : Value → Option JsonRpcResponse
  pub to_string : Value → String

pub record Writer (W : Type 0) : Type 0 where
  pub write_all : String → W → Result String Unit × W
  pub flush : W → Result String Unit × W

-- The client, with `REQUEST_ID`, the counter of the process.
pub record AcpClient (W : Type 0) : Type 0 where
  pub reader : List (Result String String)
  pub writer : W
  pub pending_notifications : List String
  pub request_id : ℕ

-- A frame with a method and without an id is a notification.
unfoldable pub is_notification : Value → Bool
is_notification peek = is_some (get_key peek "method") && not (is_some (get_key peek "id"))

abbrev pub text_json : String → Value
text_json s = string s

abbrev pub fields : List (String × Value) → Members
fields [] = no_member
fields ((key, v) ∷ rest) = member key v (fields rest)

abbrev pub optional : String → Option Value → List (String × Value)
optional key none = []
optional key (some v) = (key, v) ∷ []

abbrev pub count : ℕ → Value
count n = number (integer (pos n))

-- `JsonRpcRequest`, whose params are left out when there are none.
unfoldable pub request_frame : ℕ → String → Option Value → Value
request_frame id method params = object (
    fields (
      ("jsonrpc", text_json "2.0")
      ∷ ("id", count id)
      ∷ ("method", text_json method)
      ∷ optional "params" params))

abbrev or_json_null : Option Value → Value
or_json_null none = null
or_json_null (some v) = v

unfoldable pub notification_frame : String → Option Value → Value
notification_frame method params = object (
    fields (
      ("jsonrpc", text_json "2.0")
      ∷ ("method", text_json method)
      ∷ ("params", or_json_null params)
      ∷ []))

module _ {W : Type 0} (wire : Wire) (out : Writer W) where
  abbrev flushed : Result String Unit × W → Result String Unit × W
  flushed (err e, w) = (err e, w)
  flushed (ok u, w) = out.flush w

  abbrev line_of : Value → String
  line_of frame = push_str (wire.to_string frame) "\n"

  unfoldable pub send_notification :
      String → Option Value → AcpClient W → Result String Unit × AcpClient W
  send_notification method params client =
      let (sent, w) =
        flushed (out.write_all (line_of (notification_frame method params)) client.writer) in
      (sent, record client { writer = w })

abbrev of_response : Option JsonRpcResponse → Result String Value
of_response none = err "parse ACP response"
of_response (some resp) = elim resp.error [
  | some message ↦ err (push_str "ACP error: " message)
  | none ↦ ok_or resp.result "ACP response missing result"
]

module _ {W : Type 0} (wire : Wire) where
  -- A frame that is read: `buffered` is what comes of the loop if it is a notification.
  abbrev pub by_frame :
      Option Value
      → Result String Value × AcpClient W
      → AcpClient W
      → Result String Value × AcpClient W
  by_frame none buffered client = (err "parse ACP frame", client)
  by_frame (some peek) buffered client =
      if is_notification peek
      then buffered
      else (of_response (wire.response_from_value peek), client)

  -- The loop of `send_request` over the lines. At the end of the input the line is empty, and an empty
  -- line is no JSON.
  unfoldable pub await_response :
      List (Result String String) → AcpClient W → Result String Value × AcpClient W
  await_response [] client = (err "parse ACP frame", record client { reader = [] })
  await_response (err e ∷ lines) client = (err "read response", record client { reader = lines })
  await_response (ok buf ∷ lines) client =
      let buffered =
        await_response lines
          (record client { pending_notifications = client.pending_notifications ++ buf ∷ [] }) in
      by_frame (wire.from_str buf) buffered (record client { reader = lines })

abbrev with_context : {W : Type 0} → String → Result String Unit × W → Result String Unit × W
with_context context (ok u, w) = (ok u, w)
with_context context (err e, w) = (err context, w)

module _ {W : Type 0} (wire : Wire) (out : Writer W) where
  abbrev pub sent_then_read :
      Result String Unit × W → AcpClient W → Result String Value × AcpClient W
  sent_then_read (err e, w) client = (err e, record client { writer = w })
  sent_then_read (ok u, w) client = await_response wire client.reader (record client { writer = w })

  unfoldable pub send_request :
      String → Option Value → AcpClient W → Result String Value × AcpClient W
  send_request method params client =
      sent_then_read
        (flushed wire out (
          with_context "write request" (
            out.write_all (line_of wire out (request_frame client.request_id method params))
              client.writer)))
        (record client { request_id = suc client.request_id })

module _ {W : Type 0} (wire : Wire) where
  unfoldable pub recv_incoming :
      List (Result String String) → AcpClient W → Result String JsonRpcNotification × AcpClient W
  recv_incoming [] client = (err "stdin closed while waiting for a notification", client)
  recv_incoming (err e ∷ lines) client = (err "read notification", record client { reader = lines })
  recv_incoming (ok buf ∷ lines) client = (
    ok_or (wire.notification_from_str buf) "parse notification",
    record client { reader = lines },
  )

  unfoldable pub recv_pending :
      List String → AcpClient W → Result String JsonRpcNotification × AcpClient W
  recv_pending [] client = recv_incoming client.reader client
  recv_pending (buf ∷ rest) client = (
    ok_or (wire.notification_from_str buf) "parse buffered notification",
    record client { pending_notifications = rest },
  )

  unfoldable pub recv_notification : AcpClient W → Result String JsonRpcNotification × AcpClient W
  recv_notification client = recv_pending client.pending_notifications client
