-- ===== src/Acp/Queue.antt =====
-- loop/src/acp.rs: no request loses a notification or changes the order of two.
use mathlib.Core.List.{append_assoc}
use overacp.Acp.{
  AcpClient, Wire, Writer, await_response, by_frame, is_notification, send_notification,
  send_request, sent_then_read,
}
use overacp.Json.{Value}
use overacp.Prelude.Result.{Result, err, ok}
use overacp.Prelude.{
  Bool, Bool-cases, List, Option, String, [], false, if◌then◌else◌, inl, inr, none, refl, some,
  ◌++◌, ◌∙◌, ◌∷◌, ◌≡◌,
}

abbrev pub parsed_notification : Option Value → Bool
parsed_notification none = false
parsed_notification (some v) = is_notification v

-- The notifications among the lines that are still to be read.
unfoldable pub notifications : Wire → List (Result String String) → List String
notifications wire [] = []
notifications wire (err e ∷ lines) = notifications wire lines
notifications wire (ok buf ∷ lines) =
    let rest = notifications wire lines in
    if parsed_notification (wire.from_str buf) then buf ∷ rest else rest

module _ {W : Type 0} (wire : Wire) where
  -- The notifications that the program has not taken yet, in the order of the wire.
  abbrev pub queue : AcpClient W → List String
  queue client = client.pending_notifications ++ notifications wire client.reader

  by_frame-queue :
      (o : Option Value) (buf : String) (lines : List (Result String String)) (client : AcpClient W)
      (buffered : Result String Value × AcpClient W)
      → queue (buffered.1) ≡ client.pending_notifications ++ buf ∷ notifications wire lines
      → queue ((by_frame wire o buffered (record client { reader = lines })).1)
        ≡ client.pending_notifications
          ++ (if parsed_notification o
              then buf ∷ notifications wire lines
              else notifications wire lines)
  by_frame-queue none buf lines client buffered h = refl
  by_frame-queue (some v) buf lines client buffered h = elim (Bool-cases (is_notification v)) [
    | inl e ↦ rw e h
    | inr e ↦ rw e refl
  ]

  await_response-queue :
      (lines : List (Result String String)) (client : AcpClient W)
      → queue ((await_response wire lines client).1)
        ≡ client.pending_notifications ++ notifications wire lines
  unfolding await_response notifications
  await_response-queue [] client = refl
  await_response-queue (err e ∷ lines) client = refl
  await_response-queue (ok buf ∷ lines) client =
      by_frame-queue (wire.from_str buf) buf lines client _ (
        await_response-queue lines
          (record client { pending_notifications = client.pending_notifications ++ buf ∷ [] })
        ∙ append_assoc client.pending_notifications (buf ∷ []) (notifications wire lines))

  module _ (out : Writer W) where
    sent_then_read-queue :
        (p : Result String Unit × W) (client : AcpClient W)
        → queue ((sent_then_read wire out p client).1) ≡ queue client
    sent_then_read-queue (err e, w) client = refl
    sent_then_read-queue (ok u, w) client = await_response-queue client.reader _

    -- A request leaves the notifications that wait as they are, whatever it returns: those that arrive
    -- before its response are kept behind the ones that waited, in the order of the wire.
    pub send_request-queue :
        (method : String) (params : Option Value) (client : AcpClient W)
        → queue ((send_request wire out method params client).1) ≡ queue client
    unfolding send_request
    send_request-queue method params client = sent_then_read-queue _ _

    pub send_notification-queue :
        (method : String) (params : Option Value) (client : AcpClient W)
        → queue ((send_notification wire out method params client).1) ≡ queue client
    unfolding send_notification
    send_notification-queue method params client = refl
