-- ===== src/Turn/Outer.antt =====
-- loop/src/main.rs: the history at the start of the agent, and the loop that runs one turn for each
-- message that is pushed. An error of a turn is logged and the loop goes on; a panic ends the process.
use overacp.Acp.Pushes.{NextPush, pushed_cancel, pushed_message}
use overacp.Llm.Resolve.{Files, resolve_file_urls, resolve_file_urls_in_message}
use overacp.Llm.Types.{Message, assistant, system, tool, user}
use overacp.Prelude.Result.{Result, err, ok}
use overacp.Prelude.{
  Bool, List, Option, String, [], false, if◌then◌else◌, none, some, true, ℕ, ◌++◌, ◌∷◌,
}
use overacp.Turn.Outputs.{system_msg}
use overacp.Turn.Run.{run}
use overacp.Turn.{AcpService, Codec, LoopConfig, LoopError, Round, Tools, failed, panicked}

abbrev pub starts_with_system : List Message → Bool
starts_with_system [] = false
starts_with_system (m ∷ ms) = elim m.role [
  | system ↦ true
  | user ↦ false
  | assistant ↦ false
  | tool ↦ false
]

-- The history of the boot answer, with the system prompt before it unless it begins with one.
unfoldable pub first_messages : Files → String → List Message → List Message
first_messages files system_prompt init_messages =
    let messages = resolve_file_urls files init_messages in
    if starts_with_system messages then messages else system_msg system_prompt ∷ messages

-- What lives from turn to turn.
pub record Session (S R : Type 0) : Type 0 where
  pub acp : S
  pub tools : R
  pub history : List Message

module _ {S R Cost : Type 0} (service : AcpService S Cost)
    (next_push : S → Result String NextPush × S) (registry : Tools R) (codec : Codec)
    (add_cost : Cost → Cost → Cost) (no_cost : Cost) (config : LoopConfig) (files : Files) where
  abbrev pub take_turn :
      (ℕ → Round Cost) → Message → Session S R → Result LoopError Unit × Session S R
  take_turn rounds user_msg session =
      let (result, st) =
        run service registry codec add_cost config no_cost rounds session.acp session.tools
          (session.history ++ resolve_file_urls_in_message files user_msg ∷ []) in
      (result, record { acp = st.acp; tools = st.tools; history = st.messages })

  abbrev pub after_turn :
      Result LoopError Unit × Session S R
      → (Session S R → Option (Result LoopError Unit × Session S R))
      → Option (Result LoopError Unit × Session S R)
  after_turn (ok u, session) rest = rest session
  after_turn (err (failed e), session) rest = rest session
  after_turn (err panicked, session) rest = some (err panicked, session)

  abbrev pub on_push :
      (ℕ → Round Cost)
      → Result String NextPush × S
      → Session S R
      → (Session S R → Option (Result LoopError Unit × Session S R))
      → Option (Result LoopError Unit × Session S R)
  on_push rounds (err e, acp) session rest = some (err (failed e), record session { acp = acp })
  on_push rounds (ok pushed_cancel, acp) session rest = some (ok tt, record session { acp = acp })
  on_push rounds (ok (pushed_message m), acp) session rest =
      after_turn (take_turn rounds m (record session { acp = acp })) rest

  -- The loop, over what the clock and the model say in each turn; none stands for an agent that waits
  -- for its next message.
  unfoldable pub outer_loop :
      List (ℕ → Round Cost) → Session S R → Option (Result LoopError Unit × Session S R)
  outer_loop [] session = none
  outer_loop (rounds ∷ turns) session =
      on_push rounds (next_push session.acp) session (outer_loop turns)
