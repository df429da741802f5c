-- ===== src/Acp/Boot.antt =====
-- loop/src/acp.rs: the request of the cold start, whose answer serde reads into the loop's own messages.
use overacp.Acp.Queue.{queue, send_request-queue}
use overacp.Acp.{AcpClient, Wire, Writer, send_request}
use overacp.Json.{Value}
use overacp.Llm.Types.{Message}
use overacp.Prelude.Result.{Result, ok_or, ◌>>=◌}
use overacp.Prelude.{List, Option, String, none, ◌≡◌}

-- A field that the answer leaves out has its default.
pub record InitializeResult : Type 0 where
  pub system_prompt : String
  pub messages : List Message
  pub tools_config : Value

-- `serde_json::from_value`
abbrev initialize_result :
    (Value → Option InitializeResult) → Value → Result String InitializeResult
initialize_result read v = ok_or (read v) "parse initialize result"

module _ {W : Type 0} (wire : Wire) (out : Writer W) (read : Value → Option InitializeResult) where
  unfoldable initialize : AcpClient W → Result String InitializeResult × AcpClient W
  initialize client =
      let (result, after) = send_request wire out "initialize" none client in
      (result >>= initialize_result read, after)

-- The notifications that arrive before the answer of `initialize` wait for the first turn: whatever it
-- returns, those that waited and those on the wire are as before, in their order.
initialize-queue :
    {W : Type 0} (wire : Wire) (out : Writer W) (read : Value → Option InitializeResult)
    (client : AcpClient W)
    → queue wire ((initialize wire out read client).1) ≡ queue wire client
unfolding initialize
initialize-queue wire out read client = send_request-queue wire out "initialize" none client
