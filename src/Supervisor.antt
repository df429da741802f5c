-- ===== src/Supervisor.antt =====
-- agent/src/{run,bridge,tunnel}.rs: the supervisor, which connects a child process to a tunnel. The
-- socket, the pipes, the child and the synchronization of the workspace are parameters; an `anyhow`
-- error is its text.
pub mod Bridge
pub mod Backoff
pub mod Forwards
pub mod Examples
use overacp.Acp.{Writer}
use overacp.Prelude.Result.{Result, err, ok}
use overacp.Prelude.{List, Option, String, none, some, ℕ}
use overacp.Registry.Queue.{push}
use overacp.Supervisor.Backoff.{connect_with_retry}
use overacp.Supervisor.Bridge.{BridgeEvent, BridgeExit, run_bridge}

-- `ReapOutcome`
pub data ReapOutcome : Type 0 where
  already_exited killed try_wait_errored : ReapOutcome

-- What `run_with` calls, with the state of the world outside it. `peek_claims` gives the subject of the
-- token, `attempts` the outcomes of the attempts to connect, and `interleaving` the events of the
-- bridge in the order in which they come.
pub record World (E Conn Child : Type 0) : Type 0 where
  pub pull : E → Result String Unit × E
  pub push : E → Result String Unit × E
  pub peek_claims : String → Result String String
  pub attempts : String → String → E → List (Result String Conn)
  pub spawn : E → Result String Child × E
  pub stdin_of : Child → Writer E
  pub send_frame : Conn → String → E → Result String Unit × E
  pub trim_end : String → String
  pub interleaving : Conn → Child → E → List BridgeEvent
  pub try_wait : Child → E → Result String (Option ℕ) × E
  pub kill : Child → E → Result String Unit × E
  pub wait : Child → E → Result String ℕ × E

module _ {E Conn Child : Type 0} (world : World E Conn Child) where
  abbrev killed_child : Child → E → ReapOutcome × E
  killed_child child e =
      let (_, e1) = world.kill child e in let (_, e2) = world.wait child e1 in (killed, e2)

  abbrev pub after_try_wait : Child → Result String (Option ℕ) × E → ReapOutcome × E
  after_try_wait child (ok (some status), e) = (already_exited, e)
  after_try_wait child (ok none, e) = killed_child child e
  after_try_wait child (err x, e) = (try_wait_errored, e)

  unfoldable pub reap_child : Child → E → ReapOutcome × E
  reap_child child e = after_try_wait child (world.try_wait child e)

  -- The reaping of the child and the push of the workspace, once the bridge has exited. None stands
  -- for a supervisor that still runs.
  abbrev pub exited : Child → Option BridgeExit × E → Option (Result String Unit × E)
  exited child (none, e) = none
  exited child (some exit, e) = let (_, reaped) = reap_child child e in some (world.push reaped)

  abbrev pub spawned : Conn → Result String Child × E → Option (Result String Unit × E)
  spawned conn (err x, e) = some (err x, e)
  spawned conn (ok child, e) = exited child (
      run_bridge (world.stdin_of child) (world.send_frame conn) world.trim_end
        (world.interleaving conn child e) e)

  abbrev pub connected_to : Option Conn → E → Option (Result String Unit × E)
  connected_to none e = none
  connected_to (some conn) e = spawned conn (world.spawn e)

  module _ (token : String) (tunnel_url : String → String) where
    abbrev pub claimed : Result String String → E → Option (Result String Unit × E)
    claimed (err x) e = some (err x, e)
    claimed (ok agent_id) e =
        connected_to ((connect_with_retry (world.attempts (tunnel_url agent_id) token e)).0) e

    abbrev pub pulled : Result String Unit × E → Option (Result String Unit × E)
    pulled (err x, e) = some (err x, e)
    pulled (ok u, e) = claimed (world.peek_claims token) e

    unfoldable pub run_with : E → Option (Result String Unit × E)
    run_with e = pulled (world.pull e)
