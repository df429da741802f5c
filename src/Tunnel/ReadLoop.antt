-- ===== src/Tunnel/ReadLoop.antt =====
-- server/src/tunnel/run.rs: the read loop of a tunnel, between its start and its end. The parts of the
-- server that it calls keep their own states: the broker, the streams and the operator's hooks.
pub mod Laws
pub mod Examples
use Prim.Native.String.{String}
use text.Mathlib.Text.{starts_with}
use overacp.Auth.{Claims}
use overacp.Broker.{State, close_tunnel, open_tunnel, send_ignoring}
use overacp.Channels.{Mpsc}
use overacp.Json.{Serde}
use overacp.Prelude.{
  Bool, List, Option, [], if◌then◌else◌, nat_eq, none, some, string_eq, ℕ, ◌==◌, ◌||◌, ◌∷◌,
}
use overacp.Registry.Agent.{touch}
use overacp.Tunnel.Dispatch.Examples.{claims, serde}
use overacp.Tunnel.Dispatch.{handle_message}
use overacp.Tunnel.Hooks.{Hooks}
use overacp.Tunnel.Streams.{Broadcast, StreamBroker, publish}

-- What the loop waits for, with the instant at which it comes.
pub data WsEvent : Type 0 where
  ws_text : String → WsEvent
  ws_close ws_ignored ws_failed control_signal : WsEvent

-- `str::contains`
unfoldable pub contains_text : String → String → Bool
contains_text String.[] part = part == ""
contains_text (String.◌∷◌ c s) part = starts_with (String.◌∷◌ c s) part || contains_text s part

unfoldable pub is_fanned_out : String → Bool
is_fanned_out t =
    contains_text t "\"stream/"
    || contains_text t "\"turn/end\""
    || contains_text t "\"context/compacted\""
    || contains_text t "\"heartbeat\""

pub record Served (ch : Mpsc) (bc : Broadcast) (S : Type 0) : Type 0 where
  pub broker : State ch
  pub streams : StreamBroker bc
  pub operator : S

module _ {S : Type 0} (ch : Mpsc) (bc : Broadcast) (serde : Serde) (hooks : Hooks S)
    (claims : Claims) where
  abbrev pub send_answer : ch.Tx → Option String × S → Served ch bc S → Served ch bc S
  send_answer tx (none, s) st = record st { operator = s }
  send_answer tx (some response, s) st = record st {
    operator = s;
    broker = record (st.broker) { chans = send_ignoring ch tx response st.broker.chans };
  }

  abbrev pub fan_out : String → Served ch bc S → Served ch bc S
  fan_out t st = record st {
    streams = if is_fanned_out t then publish bc claims.sub t st.streams else st.streams;
  }

  abbrev pub touch_agent : ℕ → Served ch bc S → Served ch bc S
  touch_agent now st = record st {
    broker = record (st.broker) { registry = touch st.broker.registry claims.sub now };
  }

  unfoldable pub on_text : ch.Tx → ℕ → String → Served ch bc S → Served ch bc S
  on_text tx now t st =
      send_answer tx (handle_message serde hooks claims t st.operator)
        (fan_out t (touch_agent now st))

  -- The loop, over what comes until it ends.
  unfoldable pub read_loop : ch.Tx → List (ℕ × WsEvent) → Served ch bc S → Served ch bc S
  read_loop tx [] st = st
  read_loop tx ((now, ws_text t) ∷ events) st = read_loop tx events (on_text tx now t st)
  read_loop tx ((now, ws_ignored) ∷ events) st = read_loop tx events st
  read_loop tx ((now, ws_close) ∷ events) st = st
  read_loop tx ((now, ws_failed) ∷ events) st = st
  read_loop tx ((now, control_signal) ∷ events) st = st

  -- `run_tunnel`, from the instant of its start to that of its end.
  unfoldable pub run_tunnel : ch.Tx → ℕ → List (ℕ × WsEvent) → ℕ → Served ch bc S → Served ch bc S
  run_tunnel tx now events ended st =
      let (opened, lease) = open_tunnel ch st.broker claims.sub tx claims now in
      let after = read_loop tx events (record st { broker = opened }) in
      record after { broker = close_tunnel ch after.broker lease tx ended }
