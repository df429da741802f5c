-- ===== src/Acp/Service.antt =====
-- loop/src/acp.rs with loop/src/agentic_loop.rs: a whole turn over the client. What a user or the
-- operator sends during the turn waits for its end.
use overacp.Acp.Frames.{client_service}
use overacp.Acp.Queue.{queue}
use overacp.Acp.{AcpClient, Wire, Writer}
use overacp.Json.{Value}
use overacp.Llm.Types.{Message}
use overacp.Prelude.Result.{Result}
use overacp.Prelude.{List, Option, String, ℕ, ◌≡◌}
use overacp.Turn.{AcpService, Codec, LoopConfig, Round, Tools}

module _ {W R Cost : Type 0} (wire : Wire) (out : Writer W)
    (proto_messages : List Message → Option Value) (registry : Tools R) (codec : Codec)
    (add_cost : Cost → Cost → Cost) (config : LoopConfig) (rounds : ℕ → Round Cost) where
  abbrev service : AcpService (AcpClient W) Cost
  service = client_service wire out proto_messages

  module _ (waiting : List String) where
    abbrev Waits : AcpClient W → Type 0
    Waits client = queue wire client ≡ waiting
