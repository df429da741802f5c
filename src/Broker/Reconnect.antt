-- ===== src/Broker/Reconnect.antt =====
-- server/src/api/agents.rs with server/src/tunnel/run.rs: what is posted while an agent is away
-- reaches it when its tunnel opens.
use overacp.Auth.{Claims}
use overacp.Broker.Sessions.{open_tunnel_delivers}
use overacp.Broker.{SendMessageRequest, State, Texts, open_tunnel, send_message, session_message}
use overacp.Channels.{Mpsc}
use overacp.Json.{Serde}
use overacp.Prelude.Texts.{str_len}
use overacp.Prelude.{
  All, Bool-cases, List, String, Uuid, [], arith, false, inl, inr, nat_beq, none, refl, take, ℕ,
  ◌++◌, ◌∙◌, ◌∷◌, ◌≡◌, ◌≢◌,
}
use overacp.Registry.Agent.{lookup}
use overacp.Registry.Queue.Laws.{IsBounded, push_all, slot_of-push_all}
use overacp.Registry.Queue.{len, push, slot_of}

module _ (ch : Mpsc) where
  open ch use {Tx, queued, is_closed}

  -- Posts to one agent, one after the other, their replies dropped.
  unfoldable pub post_all : Serde → Texts → State ch → Uuid → List SendMessageRequest → State ch
  post_all serde texts st agent_id [] = st
  post_all serde texts st agent_id (req ∷ reqs) =
      post_all serde texts (send_message ch serde texts st agent_id req).0 agent_id reqs

  abbrev pub printed : Serde → List SendMessageRequest → List String
  printed serde [] = []
  printed serde (req ∷ reqs) = serde.to_string (session_message req) ∷ printed serde reqs

  send_message-away :
      (serde : Serde) (texts : Texts) (st : State ch) (agent_id : Uuid) (req : SendMessageRequest)
      → lookup st.registry agent_id ≡ none
      → str_len req.role ≢ 0
      → (send_message ch serde texts st agent_id req).0 ≡ record st {
        message_queue = (push st.message_queue agent_id (serde.to_string (session_message req))).0;
      }
  unfolding send_message
  send_message-away serde texts st agent_id req away named =
      elim (Bool-cases (nat_beq (str_len req.role) 0)) [
        | inl empty ↦ absurd (named (ground arith))
        | inr other ↦ rw (other, away) refl
      ]

  post_all-away :
      (serde : Serde) (texts : Texts) (st : State ch) (agent_id : Uuid)
      (reqs : List SendMessageRequest)
      → lookup st.registry agent_id ≡ none
      → All (λ (req : SendMessageRequest). str_len req.role ≢ 0) reqs
      → post_all serde texts st agent_id reqs
        ≡ record st { message_queue = push_all st.message_queue agent_id (printed serde reqs) }
  unfolding post_all push_all
  post_all-away serde texts st agent_id [] away named = refl
  post_all-away serde texts st agent_id (req ∷ reqs) away named =
      rw (send_message-away serde texts st agent_id req away named.0) (
        post_all-away serde texts
          (record st {
            message_queue =
                (push st.message_queue agent_id (serde.to_string (session_message req))).0;
          })
          agent_id reqs away named.1)

  -- Messages that are posted to an agent with no entry in the routing table, each with a role, and
  -- then a tunnel that opens over a new channel: the agent's channel holds the frames that were
  -- buffered before and the printed messages, in the order of the posts, cut at the capacity.
  pub posted_while_away :
      (serde : Serde) (texts : Texts) (st : State ch) (agent_id : Uuid)
      (reqs : List SendMessageRequest) (tx : Tx) (claims : Claims) (now : ℕ)
      → IsBounded st.message_queue
      → lookup st.registry agent_id ≡ none
      → All (λ (req : SendMessageRequest). str_len req.role ≢ 0) reqs
      → is_closed tx st.chans ≡ false
      → queued tx st.chans ≡ []
      → queued tx
          (open_tunnel ch (post_all serde texts st agent_id reqs) agent_id tx claims now).0.chans
        ≡ take st.message_queue.per_agent_capacity
            (slot_of st.message_queue agent_id ++ printed serde reqs)
  posted_while_away serde texts st agent_id reqs tx claims now bounded away named o fresh =
      rw (post_all-away serde texts st agent_id reqs away named) (
        (open_tunnel_delivers ch
          (record st { message_queue = push_all st.message_queue agent_id (printed serde reqs) })
          agent_id tx claims now o fresh).0
        ∙ slot_of-push_all st.message_queue agent_id (printed serde reqs)
            (unfold len in bounded.within agent_id))
