-- ===== src/Acp/Pushes.antt =====
-- loop/src/acp.rs: `next_push`, which waits for the next message of a user or for a cancellation. The
-- derived readers of the parameters and of content blocks are parameters.
use overacp.Acp.{
  AcpClient, JsonRpcNotification, Wire, recv_incoming, recv_notification, recv_pending,
}
use overacp.Json.{Value, array, boolean, null, number, object, string}
use overacp.Llm.Types.{Content, Message, Role, assistant, plain, system, tool, user}
use overacp.Prelude.Result.{Result, err, map_ok, ok, ok_or, ◌>>=◌}
use overacp.Prelude.{
  List, Option, String, [], ap, arith, if◌then◌else◌, is_some, length, nat_eq, none, refl, some,
  string_eq, suc, true, zero, ℕ, ◌+◌, ◌<◌, ◌==◌, ◌∷◌, ◌≡◌,
}

pub data ProtoRole : Type 0 where
  proto_system proto_user proto_assistant proto_tool : ProtoRole

pub record SessionMessageParams : Type 0 where
  pub role : ProtoRole
  pub content : Value

pub data NextPush : Type 0 where
  pushed_message : Message → NextPush
  pushed_cancel : NextPush

abbrev llm_role : ProtoRole → Role
llm_role proto_system = system
llm_role proto_user = user
llm_role proto_assistant = assistant
llm_role proto_tool = tool

-- The readers of `serde_json` that are derived from the types.
pub record Readers : Type 0 where
  pub params_from_value : Value → Option SessionMessageParams
  pub content_from_value : Value → Option Content

module _ (wire : Wire) (readers : Readers) where
  abbrev structured : Value → Result String (Option Content)
  structured v =
      map_ok some (ok_or (readers.content_from_value v) "parse session/message content blocks")

  unfoldable pub message_content : Value → Result String (Option Content)
  message_content null = ok none
  message_content (string s) = ok (some (plain s))
  message_content (array items) = structured (array items)
  message_content (object members) = structured (object members)
  message_content (boolean b) = ok (some (plain (wire.to_string (boolean b))))
  message_content (number n) = ok (some (plain (wire.to_string (number n))))

  unfoldable pub session_message_to_llm_message : SessionMessageParams → Result String Message
  session_message_to_llm_message p =
      map_ok
        (λ c. record {
          role = llm_role p.role;
          content = c;
          tool_calls = none;
          tool_call_id = none;
        })
        (message_content p.content)

  unfoldable pub push_of_params : Value → Result String NextPush
  push_of_params v = ok_or (readers.params_from_value v) "parse session/message params" >>= λ p.
      map_ok pushed_message (session_message_to_llm_message p)

  module _ {W : Type 0} where
    -- What one turn of the loop does with a notification: `rest` is the next turn.
    unfoldable pub on_notification :
        Result String JsonRpcNotification × AcpClient W
        → (AcpClient W → Option (Result String NextPush × AcpClient W))
        → Option (Result String NextPush × AcpClient W)
    on_notification (err e, client) rest = some (err e, client)
    on_notification (ok notif, client) rest =
        let later = rest client in
        if notif.method == "session/message"
        then some (push_of_params notif.params, client)
        else if notif.method == "session/cancel"
        then some (ok pushed_cancel, client)
        else later

    -- `next_push` on fuel: none stands for a loop that has not ended.
    unfoldable pub next_push : ℕ → AcpClient W → Option (Result String NextPush × AcpClient W)
    next_push zero client = none
    next_push (suc n) client = on_notification (recv_notification wire client) (next_push n)

module _ {W : Type 0} where
  abbrev pub unread : AcpClient W → ℕ
  unread client = length client.pending_notifications + length client.reader

  -- A notification that is taken leaves less to be read.
  abbrev Decreases : ℕ → Result String JsonRpcNotification × AcpClient W → Type 0
  Decreases bound (err e, client) = Unit
  Decreases bound (ok notif, client) = unread client < bound

  taken-Decreases :
      (bound : ℕ) (o : Option JsonRpcNotification) (e : String) (client : AcpClient W)
      → unread client < bound
      → Decreases bound (ok_or o e, client)
  taken-Decreases bound none e client h = tt
  taken-Decreases bound (some notif) e client h = h

  module _ (wire : Wire) where
    recv_incoming-Decreases :
        (lines : List (Result String String)) (client : AcpClient W)
        → client.reader ≡ lines
        → Decreases (unread client) (recv_incoming wire lines client)
    unfolding recv_incoming
    recv_incoming-Decreases [] client e = tt
    recv_incoming-Decreases (err x ∷ lines) client e = tt
    recv_incoming-Decreases (ok buf ∷ lines) client e =
        taken-Decreases _ _ _ _ (ground (arith, ap length e))

    recv_pending-Decreases :
        (bufs : List String) (client : AcpClient W)
        → client.pending_notifications ≡ bufs
        → Decreases (unread client) (recv_pending wire bufs client)
    unfolding recv_pending
    recv_pending-Decreases [] client e = recv_incoming-Decreases client.reader client refl
    recv_pending-Decreases (buf ∷ rest) client e =
        taken-Decreases _ _ _ _ (ground (arith, ap length e))

  module _ (wire : Wire) (readers : Readers) where
    on_notification-ends :
        (bound : ℕ) (p : Result String JsonRpcNotification × AcpClient W)
        (rest : AcpClient W → Option (Result String NextPush × AcpClient W))
        → Decreases bound p
        → ((client : AcpClient W) → unread client < bound → is_some (rest client) ≡ true)
        → is_some (on_notification wire readers p rest) ≡ true
    unfolding on_notification
    on_notification-ends bound (err e, client) rest h k = refl
    on_notification-ends bound (ok notif, client) rest h k = let later = k client h in ground arith

    -- As many turns of the loop as there are lines and notifications that wait, and one more, are
    -- enough: `next_push` returns a push or an error.
    pub next_push-ends :
        (n : ℕ) (client : AcpClient W)
        → unread client < n
        → is_some (next_push wire readers n client) ≡ true
    unfolding next_push recv_notification
    next_push-ends zero client h = absurd (omega arith)
    next_push-ends (suc n) client h =
        on_notification-ends (unread client) (recv_notification wire client)
          (next_push wire readers n)
          (recv_pending-Decreases wire client.pending_notifications client refl)
          (λ after less. next_push-ends n after (omega arith))
