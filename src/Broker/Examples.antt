-- ===== src/Broker/Examples.antt =====
-- The theorems on the broker at a concrete state, over the channel table of `Channels.Model`.
use overacp.Auth.{Claims}
use overacp.Broker.Endings.{disconnect_keeps_channel, stale_close_disconnects}
use overacp.Broker.Messages.{send_message-Posted}
use overacp.Broker.Races.{live_overtakes_buffered, queued_after_drain}
use overacp.Broker.Reconnect.{post_all, posted_while_away}
use overacp.Broker.Sessions.{open_tunnel_delivers}
use overacp.Broker.{
  SendMessageRequest, State, Texts, acquire_tunnel, close_tunnel, deliver, disconnect_agent,
  drain_buffered, enqueue, open_tunnel, send_message,
}
use overacp.Channels.Model.{fresh_table, table_mpsc}
use overacp.Json.{Serde, string}
use overacp.Prelude.Int.{pos}
use overacp.Prelude.Map.{get}
use overacp.Prelude.{[], arith, false, nat_eq, none, refl, string_eq, ◌∷◌, ◌≡◌}
use overacp.Registry.Agent.{is_connected, lookup}
use overacp.Registry.Queue.Laws.{IsBounded}
use overacp.Registry.Queue.{len, slot_of}

abbrev texts_model : Texts
texts_model = record { of_uuid = λ agent_id. "id"; of_nat = λ n. "n" }

abbrev serde_model : Serde
serde_model = record { from_str = λ text. none; to_string = λ v. "printed" }

abbrev hello : SendMessageRequest
hello = record { role = "user"; content = string "hello" }

abbrev somebody : Claims
somebody = record { sub = 1; role = "agent"; user = none; exp = pos 60; iss = "overacp" }

-- Agent 1 is away and has one buffered frame; the buffers hold two.
abbrev away_state : State table_mpsc
away_state = record {
  registry = record { connected = []; recent = [] };
  message_queue = record { inner = (1, "early" ∷ []) ∷ []; per_agent_capacity = 2 };
  chans = fresh_table;
}

away_state-IsBounded : IsBounded away_state.message_queue
unfolding len slot_of get
away_state-IsBounded = record { within = λ agent_id. ground arith }

nobody : lookup away_state.registry 1 ≡ none
unfolding lookup
nobody = refl

send_message-Posted_example :
    (send_message table_mpsc serde_model texts_model away_state 1 hello).0.registry
    ≡ away_state.registry
send_message-Posted_example =
    (send_message-Posted table_mpsc serde_model texts_model away_state 1 hello).0

open_tunnel_delivers_example :
    (((open_tunnel table_mpsc away_state 1 4 somebody 0).0.chans) 4).frames ≡ "early" ∷ []
unfolding slot_of
open_tunnel_delivers_example =
    (open_tunnel_delivers table_mpsc away_state 1 4 somebody 0 refl refl).0

posted_while_away_example :
    (((open_tunnel table_mpsc
        (post_all table_mpsc serde_model texts_model away_state 1 (hello ∷ hello ∷ []))
        1
        4
        somebody
        0).0.chans)
      4).frames
    ≡ "early" ∷ "printed" ∷ []
unfolding slot_of
posted_while_away_example =
    posted_while_away table_mpsc serde_model texts_model away_state 1 (hello ∷ hello ∷ []) 4
      somebody 0 away_state-IsBounded nobody (omega arith, (omega arith, tt)) refl refl

live_overtakes_buffered_example :
    (((drain_buffered table_mpsc
        (record (acquire_tunnel table_mpsc away_state 1 4 somebody 0).0 {
          chans =
              (deliver table_mpsc
                (acquire_tunnel table_mpsc away_state 1 4 somebody 0).0.registry
                (acquire_tunnel table_mpsc away_state 1 4 somebody 0).0.chans
                1
                "late").0;
        })
        1
        4).chans)
      4).frames
    ≡ "late" ∷ "early" ∷ []
unfolding slot_of
live_overtakes_buffered_example =
    (live_overtakes_buffered table_mpsc away_state 1 4 somebody 0 "late" refl refl).1

queued_after_drain_example :
    slot_of
      (enqueue table_mpsc texts_model
        (open_tunnel table_mpsc
          (record away_state {
            chans = (deliver table_mpsc away_state.registry away_state.chans 1 "lost").0;
          })
          1
          4
          somebody
          0).0
        1
        (deliver table_mpsc away_state.registry away_state.chans 1 "lost").1).0.message_queue
      1
    ≡ "lost" ∷ []
queued_after_drain_example =
    (queued_after_drain table_mpsc texts_model away_state 1 4 somebody 0 "lost" nobody (omega arith)
      refl refl).2

stale_close_disconnects_example :
    is_connected
      (close_tunnel table_mpsc
        (open_tunnel table_mpsc
          (open_tunnel table_mpsc away_state 1 4 somebody 0).0
          1
          5
          somebody
          1).0
        (open_tunnel table_mpsc away_state 1 4 somebody 0).1
        4
        2).registry
      1
    ≡ false
stale_close_disconnects_example =
    (stale_close_disconnects table_mpsc away_state 1 4 5 somebody somebody 0 1 2 "lost"
      (ground arith) refl).1

disconnect_keeps_channel_example :
    (((disconnect_agent table_mpsc texts_model
        (open_tunnel table_mpsc away_state 1 4 somebody 0).0
        1
        9).0.chans)
      4).count
    ≡ 1
disconnect_keeps_channel_example =
    (disconnect_keeps_channel table_mpsc texts_model away_state 1 4 somebody 0 9 nobody refl refl).2
