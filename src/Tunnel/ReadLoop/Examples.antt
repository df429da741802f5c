-- ===== src/Tunnel/ReadLoop/Examples.antt =====
-- Tests of server/src/tunnel/{run,broker}.rs, and the theorems at a concrete connection.
use overacp.Channels.Model.{fresh_table, table_mpsc}
use overacp.Json.{as_str, get_key}
use overacp.Prelude.Map.{get}
use overacp.Prelude.{List, String, [], false, nat_eq, refl, some, string_eq, suc, ℕ, ◌∷◌, ◌≡◌}
use overacp.Tunnel.Dispatch.Examples.{claims, counting, serde}
use overacp.Tunnel.Dispatch.{dispatch, handle_message}
use overacp.Tunnel.ReadLoop.Laws.{
  Answers, hooks_after, publish_all, read_loop-Answers, responses, texts_read,
}
use overacp.Tunnel.ReadLoop.{
  Served, WsEvent, contains_text, is_fanned_out, on_text, read_loop, ws_close, ws_ignored, ws_text,
}
use overacp.Tunnel.Streams.{Broadcast, StreamBroker, publish, sender_for}

-- Broadcast channels with a log of what was sent on them. The number of a channel is its sender.
abbrev logged_bus : Broadcast
logged_bus = record {
  Buses = ℕ × List (ℕ × String);
  Sender = ℕ;
  Receiver = ℕ;
  channel = λ size (next, log). (next, (suc next, log));
  send = λ sender frame (next, log). some (next, (sender, frame) ∷ log);
  subscribe = λ sender buses. (sender, buses);
}

abbrev no_streams : StreamBroker logged_bus
no_streams = record { bus = []; buses = (0, []) }

abbrev served : Served table_mpsc logged_bus ℕ
served = record {
  broker = record {
    registry = record { connected = []; recent = [] };
    message_queue = record { inner = []; per_agent_capacity = 2 };
    chans = fresh_table;
  };
  streams = no_streams;
  operator = 0;
}

-- A call, a frame that only mentions a stream, and a call after the end.
abbrev events : List (ℕ × WsEvent)
events =
    (1, ws_text "call")
    ∷ (2, ws_ignored)
    ∷ (3, ws_text "{\"method\":\"tools/call\",\"params\":\"stream/x\"}")
    ∷ (4, ws_close)
    ∷ (5, ws_text "call")
    ∷ []

-- The second frame is a request, but it is fanned out.
request_fanned_out :
    (read_loop table_mpsc logged_bus serde counting claims 0 events served).streams.buses.1
    ≡ (0, "{\"method\":\"tools/call\",\"params\":\"stream/x\"}") ∷ []
unfolding read_loop on_text is_fanned_out contains_text handle_message publish sender_for get
    get_key as_str dispatch
request_fanned_out = refl

is_open : table_mpsc.is_closed 0 served.broker.chans ≡ false
is_open = refl

read_loop-Answers_example :
    Answers table_mpsc logged_bus serde counting claims 0
      (responses serde counting claims (texts_read events) 0)
      (publish_all logged_bus claims.sub (texts_read events) no_streams)
      (hooks_after serde counting claims (texts_read events) 0)
      served
      (read_loop table_mpsc logged_bus serde counting claims 0 events served)
read_loop-Answers_example =
    read_loop-Answers table_mpsc logged_bus serde counting claims 0 events served is_open
