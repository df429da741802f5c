-- ===== src/Lib.antt =====
-- over/ACP: a broker (server) to which agents hold a tunnel, a supervisor (agent) that connects a
-- child process to that tunnel, and a reference agent (loop) that runs turns of a language model.
-- An operator posts messages over REST; the broker writes them to the agent's channel, or buffers them
-- until the agent's tunnel opens; the agent asks the broker's hooks for its start state, its tools and
-- its quota.
--
-- The files, by the part of the program they model:
--   Prelude             lists, maps, results, integers and texts that all parts share
--   Json                the values of serde_json; Serde holds its two functions on texts
--   Channels            the unbounded channels of tokio, an interface with laws; Channels/Model fills it
--   Registry/Queue      server/src/registry/queue.rs: push, drain, len, is_empty
--   Registry/Agent      server/src/registry/agent.rs: register, unregister, list, describe, push_recent,
--                       purge_recent, acquire, the lease's drop, disconnect, touch
--   Broker              server/src/api/{agents,error}.rs and server/src/tunnel/run.rs: send_message,
--                       cancel_turn, disconnect_agent, describe_agent, open_tunnel and close_tunnel (the
--                       beginning and the end of run_tunnel)
--   Auth, Routes        server/src/auth.rs, server/src/routes.rs, server/src/api/tokens.rs
--   Tunnel              server/src/tunnel/dispatch.rs and server/src/hooks; Tunnel/Streams has
--                       server/src/tunnel/broker.rs, Tunnel/ReadLoop the loop of run_tunnel
--   Supervisor          agent/src/run.rs: run_with and reap_child; Supervisor/Bridge has
--                       agent/src/bridge.rs, Supervisor/Backoff the retries of agent/src/tunnel.rs
--   Llm/Types           loop/src/llm/types.rs
--   Llm/Compaction      loop/src/compaction.rs
--   Llm/Retry           loop/src/llm/retry.rs, with the loops of loop/src/llm/client.rs
--   Llm/Stream          the tool calls and the usage report of loop/src/llm/{client,types}.rs
--   Llm/Resolve         loop/src/llm/resolve.rs
--   Llm/Sse             process_stream of loop/src/llm/client.rs, which reads a streamed body
--   Config              compute/src/config/reference.rs: the references in a configuration value;
--                       Config/Resolve has compute/src/config/{mod,env}.rs, which look them up
--   Turn                loop/src/agentic_loop.rs: run, by the parts of an iteration; Turn/Outputs has the
--                       texts of loop/src/llm/tool_args.rs, Turn/Calls the handling of tool calls.
--                       Turn/Invariant and Turn/Service are the rules for its invariants, and
--                       Turn/Outer is the loop of loop/src/main.rs around it
--   ToolRegistry        loop/src/tools/registry.rs, with its use at the start of loop/src/main.rs
--   Acp                 loop/src/acp.rs: the client that is the service of Turn, and initialize and next_push
--   RateLimit           common/src/sentry_rate_limit.rs
-- The child modules of a part hold its theorems, and its Examples the tests and concrete instances.
--
-- State is passed explicitly. A handler that awaits between two changes of shared state is the
-- composition of its steps, and Broker/Races composes the steps of two handlers in the orders that the
-- runtime allows. Instants are numbers of nanoseconds and arguments of the operations that read the
-- clock. Uuids are numbers that are only compared. A Rust usize or u64 is a number without a bound
-- where the code adds nothing to it that could pass 2^64; the expiry of a token and the sums of token
-- counts wrap around as in a release build. A panic of the loop is an outcome of its own, LoopError. The retry loop recurses on the outcomes of
-- its attempts, of which Llm/Retry/Outcomes bounds the number. Two loops run on fuel. The inner loop of
-- process_stream has as much as its buffer has characters, and each pass takes a newline off. The loop
-- of next_push needs one turn more than there are lines to read and notifications that wait, since each
-- turn takes one of them. The loop of run counts its iterations down from max_iterations.
--
-- The crates tokio, serde_json, jsonwebtoken, uuid and reqwest, the operator's hooks and the language
-- model are parameters. Not modelled: logging and metrics, the sockets, the ping and write tasks of a
-- tunnel, the Redis backend, the rest of the compute crate, the agent's builtin tools and MCP client,
-- its traces, and the codecs of the protocol's payloads.
pub mod Acp
pub mod Auth
pub mod Broker
pub mod Channels
pub mod Config
pub mod Json
pub mod Llm
pub mod Prelude
pub mod RateLimit
pub mod Registry
pub mod Routes
pub mod Supervisor
pub mod ToolRegistry
pub mod Tunnel
pub mod Turn
