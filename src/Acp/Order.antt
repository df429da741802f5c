-- ===== src/Acp/Order.antt =====
-- loop/src/acp.rs: notifications are taken in the order in which they came.
use mathlib.Core.List.{append_assoc}
use overacp.Acp.Pushes.{NextPush, Readers, next_push, on_notification}
use overacp.Acp.Queue.{notifications, parsed_notification, queue}
use overacp.Acp.{
  AcpClient, JsonRpcNotification, Wire, recv_incoming, recv_notification, recv_pending,
}
use overacp.Prelude.Result.{Result, err, ok}
use overacp.Prelude.{
  Bool-cases, List, Option, String, [], ap, inl, inr, nat_eq, none, refl, some, string_eq, suc, sym,
  zero, ℕ, ◌++◌, ◌==◌, ◌∙◌, ◌∷◌, ◌≡◌,
}
use overacp.Turn.Invariant.{if_kept}

module _ {W : Type 0} (wire : Wire) where
  abbrev Taken : List String → AcpClient W → Type 0
  Taken waiting client = (taken : List String) × (waiting ≡ taken ++ queue wire client)

  recv_incoming-Taken :
      (lines : List (Result String String)) (client : AcpClient W)
      → client.pending_notifications ≡ []
      → Taken
          (notifications wire lines)
          ((recv_incoming wire lines (record client { reader = lines })).1)
  unfolding recv_incoming notifications
  recv_incoming-Taken [] client e = ([], rw e refl)
  recv_incoming-Taken (err x ∷ lines) client e = ([], rw e refl)
  recv_incoming-Taken (ok buf ∷ lines) client e =
      elim (Bool-cases (parsed_notification (wire.from_str buf))) [
        | inl b ↦ (buf ∷ [], rw (b, e) refl)
        | inr b ↦ ([], rw (b, e) refl)
      ]

  recv_pending-Taken :
      (bufs : List String) (client : AcpClient W)
      → client.pending_notifications ≡ bufs
      → Taken (bufs ++ notifications wire client.reader) ((recv_pending wire bufs client).1)
  unfolding recv_pending
  recv_pending-Taken [] client e = recv_incoming-Taken client.reader client e
  recv_pending-Taken (buf ∷ rest) client e = (buf ∷ [], refl)

  abbrev pub FromFront : List String → Option (Result String NextPush × AcpClient W) → Type 0
  FromFront waiting none = Unit
  FromFront waiting (some (r, client)) = Taken waiting client

  Taken-then :
      (waiting : List String) (client : AcpClient W)
      (o : Option (Result String NextPush × AcpClient W))
      → Taken waiting client
      → FromFront (queue wire client) o
      → FromFront waiting o
  Taken-then waiting client none h k = tt
  Taken-then waiting client (some (r, after)) (first, e) (more, f) =
      (first ++ more, e ∙ ap (λ l. first ++ l) f ∙ sym (append_assoc first more _))

  module _ (readers : Readers) where
    on_notification-FromFront :
        (waiting : List String) (p : Result String JsonRpcNotification × AcpClient W)
        (rest : AcpClient W → Option (Result String NextPush × AcpClient W))
        → Taken waiting (p.1)
        → ((client : AcpClient W) → FromFront (queue wire client) (rest client))
        → FromFront waiting (on_notification wire readers p rest)
    unfolding on_notification
    on_notification-FromFront waiting (err e, client) rest h k = h
    on_notification-FromFront waiting (ok notif, client) rest h k =
        if_kept (FromFront waiting) (notif.method == "session/message") _ _ h (
          if_kept (FromFront waiting) (notif.method == "session/cancel") _ _ h
            (Taken-then waiting client (rest client) h (k client)))

    -- However many turns its loop makes, `next_push` takes notifications only from the front of those
    -- that wait: the ones that it leaves are still all there, in their order.
    pub next_push-front :
        (n : ℕ) (client : AcpClient W)
        → FromFront (queue wire client) (next_push wire readers n client)
    unfolding next_push recv_notification
    next_push-front zero client = tt
    next_push-front (suc n) client =
        on_notification-FromFront (queue wire client) (recv_notification wire client)
          (next_push wire readers n) (recv_pending-Taken client.pending_notifications client refl)
          (next_push-front n)
