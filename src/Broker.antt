-- ===== src/Broker.antt =====
-- server/src: the broker, as far as frames to the agents go. `State` is the part of `AppState`
-- (server/src/state.rs) that these operations change, over the channels of the crate `tokio`.
pub mod Messages
pub mod Sessions
pub mod Reconnect
pub mod Races
pub mod Endings
pub mod Examples
use overacp.Auth.{Claims}
use overacp.Channels.{Mpsc}
use overacp.Json.{Serde, Value, member, no_member, object, string}
use overacp.Prelude.Result.{Result, err, ok, ok_or}
use overacp.Prelude.Texts.{push_str, str_len}
use overacp.Prelude.{
  List, Option, String, Uuid, [], if◌then◌else◌, nat_eq, none, some, string_eq, ℕ, ◌==◌, ◌∷◌,
}
use overacp.Registry.Agent.{
  AgentDescription, AgentEntry, AgentRegistry, TunnelLease, acquire, describe, is_connected, lookup,
  unregister,
}
use overacp.Registry.Queue.{MessageQueue, drain, full, push}

-- server/src/registry/agent.rs
pub data DeliveryOutcome : Type 0 where
  live : DeliveryOutcome
  no_tunnel : String → DeliveryOutcome

-- server/src/api/error.rs
pub data ApiError : Type 0 where
  not_found bad_request unauthorized service_unavailable internal : String → ApiError

-- `into_response`: the status code.
unfoldable pub status_code : ApiError → ℕ
status_code (not_found msg) = 404
status_code (bad_request msg) = 400
status_code (unauthorized msg) = 401
status_code (service_unavailable msg) = 503
status_code (internal msg) = 500

-- server/src/api/agents.rs
pub data HowDelivered : Type 0 where
  inline queued_up : HowDelivered

pub record SendMessageRequest : Type 0 where
  pub role : String
  pub content : Value

-- The text of an id in an error message.
pub record Texts : Type 0 where
  pub of_uuid : Uuid → String
  pub of_nat : ℕ → String

pub record State (ch : Mpsc) : Type 0 where
  pub registry : AgentRegistry ch.Tx
  pub message_queue : MessageQueue
  pub chans : ch.Chans

-- The notification frames of the handlers, before they are printed.
unfoldable pub session_message : SendMessageRequest → Value
session_message req = object (
    member "jsonrpc" (string "2.0") (
      member "method" (string "session/message") (
        member "params"
          (object (member "role" (string req.role) (member "content" req.content no_member)))
          no_member)))

unfoldable pub session_cancel : Value
session_cancel = object (
    member "jsonrpc" (string "2.0")
      (member "method" (string "session/cancel") (member "params" (object no_member) no_member)))

unfoldable pub queue_full : Texts → Uuid → ℕ → ApiError
queue_full texts agent_id capacity = service_unavailable (
    push_str "agent " (
      push_str (texts.of_uuid agent_id)
        (push_str " message queue is full (" (push_str (texts.of_nat capacity) "); retry later"))))

module _ (ch : Mpsc) where
  open ch use {Chans, Tx, send, clone_tx, close_rx, drop_tx}

  abbrev sent : String → Chans → Option Chans → Chans × DeliveryOutcome
  sent frame c none = (c, no_tunnel frame)
  sent frame c (some c') = (c', live)

  abbrev deliver_to : String → Chans → Option (AgentEntry Tx) → Chans × DeliveryOutcome
  deliver_to frame c none = (c, no_tunnel frame)
  deliver_to frame c (some entry) = sent frame c (send entry.tx frame c)

  -- `InMemoryAgentRegistry::deliver`
  unfoldable pub deliver : AgentRegistry Tx → Chans → Uuid → String → Chans × DeliveryOutcome
  unfolding lookup
  deliver reg c agent_id frame = deliver_to frame c (lookup reg agent_id)

  -- The second half of `send_message`, once `deliver` has answered.
  unfoldable pub enqueue :
      Texts → State ch → Uuid → DeliveryOutcome → State ch × Result ApiError HowDelivered
  unfolding push
  enqueue texts st agent_id live = (st, ok inline)
  enqueue texts st agent_id (no_tunnel frame) =
      let (q, pushed) = push st.message_queue agent_id frame in
      (
        record st { message_queue = q },
        elim pushed [
          | ok _ ↦ ok queued_up
          | err (full _ capacity) ↦ err (queue_full texts agent_id capacity)
        ],
      )

  unfoldable pub send_message :
      Serde → Texts → State ch → Uuid → SendMessageRequest → State ch × Result ApiError HowDelivered
  unfolding deliver enqueue session_message
  send_message serde texts st agent_id req =
      if str_len req.role == 0
      then (st, err (bad_request "'role' must not be empty"))
      else (let (c, outcome) =
            deliver st.registry st.chans agent_id (serde.to_string (session_message req)) in
          enqueue texts (record st { chans = c }) agent_id outcome)

  unfoldable pub cancel_turn : Serde → State ch → Uuid → State ch
  unfolding deliver session_cancel
  cancel_turn serde st agent_id = record st {
    chans = (deliver st.registry st.chans agent_id (serde.to_string session_cancel)).0;
  }

  -- A registry entry that goes away drops the sender that it holds.
  abbrev drop_entry : Option (AgentEntry Tx) → Chans → Chans
  drop_entry none c = c
  drop_entry (some entry) c = drop_tx entry.tx c

  unfoldable pub unregister_entry : State ch → Uuid → ℕ → State ch
  unfolding unregister lookup
  unregister_entry st agent_id now = record st {
    registry = unregister st.registry agent_id now;
    chans = drop_entry (lookup st.registry agent_id) st.chans;
  }

  unfoldable pub disconnect_agent : Texts → State ch → Uuid → ℕ → State ch × Result ApiError ℕ
  unfolding is_connected unregister_entry
  disconnect_agent texts st agent_id now =
      if is_connected st.registry agent_id
      then (unregister_entry st agent_id now, ok 202)
      else (st, err (not_found (push_str "agent " (texts.of_uuid agent_id))))

  unfoldable pub describe_agent : Texts → State ch → Uuid → ℕ → Result ApiError AgentDescription
  unfolding describe
  describe_agent texts st agent_id now =
      ok_or (describe st.registry agent_id now)
        (not_found (push_str "agent " (texts.of_uuid agent_id)))

  -- `run_tunnel`, up to the loops (server/src/tunnel/run.rs). `tx` is the sender of the channel just
  -- made; its clone is the tunnel's own `local_tx`. The entry that the new one replaces is dropped.
  unfoldable pub acquire_tunnel : State ch → Uuid → Tx → Claims → ℕ → State ch × TunnelLease
  unfolding acquire lookup
  acquire_tunnel st agent_id tx claims now =
      let (reg, lease) = acquire st.registry agent_id tx claims now in
      (
        record st {
          registry = reg;
          chans = drop_entry (lookup st.registry agent_id) (clone_tx tx st.chans);
        },
        lease,
      )

  -- `let _ = local_tx.send(frame)`
  unfoldable pub send_ignoring : Tx → String → Chans → Chans
  send_ignoring tx frame c = (sent frame c (send tx frame c)).0

  unfoldable pub send_all : Tx → List String → Chans → Chans
  unfolding send_ignoring
  send_all tx [] c = c
  send_all tx (frame ∷ frames) c = send_all tx frames (send_ignoring tx frame c)

  unfoldable pub drain_buffered : State ch → Uuid → Tx → State ch
  unfolding drain send_all
  drain_buffered st agent_id tx =
      let (q, buffered) = drain st.message_queue agent_id in
      record st { message_queue = q; chans = send_all tx buffered st.chans }

  unfoldable pub open_tunnel : State ch → Uuid → Tx → Claims → ℕ → State ch × TunnelLease
  unfolding acquire_tunnel drain_buffered
  open_tunnel st agent_id tx claims now =
      let (st', lease) = acquire_tunnel st agent_id tx claims now in
      (drain_buffered st' agent_id tx, lease)

  -- The end of `run_tunnel`: the lease is dropped, the write task is aborted and with it the receiver,
  -- and `local_tx` goes with the function's frame.
  unfoldable pub close_tunnel : State ch → TunnelLease → Tx → ℕ → State ch
  unfolding unregister_entry
  close_tunnel st lease tx now =
      let st' = unregister_entry st lease.agent_id now in
      record st' { chans = drop_tx tx (close_rx tx st'.chans) }
