-- ===== src/Supervisor/Bridge.antt =====
-- agent/src/bridge.rs: the pump between the tunnel and the child. One event is one turn of one of the
-- two halves, so a list of events is an interleaving of the halves; a write that the other half's end
-- cuts off in the middle is not modelled.
use Prim.Native.Char.{code}
use Prim.Native.String.{String}
use overacp.Acp.{Writer}
use overacp.Prelude.Result.{Result, err, ok}
use overacp.Prelude.Texts.{push_str}
use overacp.Prelude.{
  Bool, List, Option, [], false, if◌then◌else◌, nat_beq, nat_eq, none, some, string_eq, ◌==◌, ◌∷◌,
}

pub data BridgeExit : Type 0 where
  tunnel_closed process_exited : BridgeExit
  bridge_error : String → BridgeExit

-- A frame of the socket: only texts and the closing frame matter.
pub data WsFrame : Type 0 where
  frame_text : String → WsFrame
  frame_close frame_ignored : WsFrame

unfoldable pub ends_with_newline : String → Bool
ends_with_newline String.[] = false
ends_with_newline (String.◌∷◌ c s) =
    let rest = ends_with_newline s in if s == "" then nat_beq (code c) 10 else rest

module _ {W : Type 0} (stdin : Writer W) where
  abbrev then_flush : Result String Unit × W → Result String Unit × W
  then_flush (err e, w) = (err e, w)
  then_flush (ok u, w) = stdin.flush w

  abbrev then_newline : String → Result String Unit × W → Result String Unit × W
  then_newline frame (err e, w) = (err e, w)
  then_newline frame (ok u, w) =
      if ends_with_newline frame then (ok tt, w) else stdin.write_all "\n" w

  unfoldable pub write_frame : String → W → Result String Unit × W
  write_frame frame w = then_flush (then_newline frame (stdin.write_all frame w))

-- One event: what one half reads, or the end of its input.
pub data BridgeEvent : Type 0 where
  from_tunnel : Result String WsFrame → BridgeEvent
  tunnel_end : BridgeEvent
  from_child : Result String String → BridgeEvent
  child_end : BridgeEvent

module _ {E : Type 0} (stdin : Writer E) (send_frame : String → E → Result String Unit × E)
    (trim_end : String → String) where
  abbrev wrote : Result String Unit × E → Option BridgeExit × E
  wrote (ok u, e) = (none, e)
  wrote (err x, e) = (some (bridge_error (push_str "write to stdin: " x)), e)

  abbrev put_out : Result String Unit × E → Option BridgeExit × E
  put_out (ok u, e) = (none, e)
  put_out (err x, e) = (some (bridge_error (push_str "ws write: " x)), e)

  -- A turn of `ws_to_stdin` or of `stdout_to_ws`; an exit ends the bridge.
  unfoldable pub on_bridge_event : BridgeEvent → E → Option BridgeExit × E
  on_bridge_event (from_tunnel (ok (frame_text t))) e = wrote (write_frame stdin t e)
  on_bridge_event (from_tunnel (ok frame_close)) e = (some tunnel_closed, e)
  on_bridge_event (from_tunnel (ok frame_ignored)) e = (none, e)
  on_bridge_event (from_tunnel (err x)) e = (some (bridge_error (push_str "ws read: " x)), e)
  on_bridge_event tunnel_end e = (some tunnel_closed, e)
  on_bridge_event (from_child (ok line)) e = put_out (send_frame (trim_end line) e)
  on_bridge_event (from_child (err x)) e = (some (bridge_error (push_str "stdout read: " x)), e)
  on_bridge_event child_end e = (some process_exited, e)

  abbrev and_rest : Option BridgeExit × E → (E → Option BridgeExit × E) → Option BridgeExit × E
  and_rest (some exit, e) rest = (some exit, e)
  and_rest (none, e) rest = rest e

  -- `run`; none stands for a bridge that still runs after the events.
  unfoldable pub run_bridge : List BridgeEvent → E → Option BridgeExit × E
  run_bridge [] e = (none, e)
  run_bridge (event ∷ events) e = and_rest (on_bridge_event event e) (run_bridge events)
