-- ===== src/Broker/Messages.antt =====
-- server/src/api/agents.rs: where a message that a client posts ends up.
use overacp.Broker.{
  ApiError, DeliveryOutcome, HowDelivered, SendMessageRequest, State, Texts, bad_request, deliver,
  enqueue, inline, live, no_tunnel, queue_full, queued_up, send_message, session_message,
}
use overacp.Channels.{Mpsc}
use overacp.Json.{Serde}
use overacp.Prelude.Result.{Result, err, ok}
use overacp.Prelude.Texts.{str_len}
use overacp.Prelude.{
  Bool-cases, Option-cases, String, Uuid, [], arith, inl, inr, nat_beq, none, refl, some, ◌++◌, ◌<◌,
  ◌∷◌, ◌≡◌, ◌≢◌, ◌≤◌, ◌⊎◌,
}
use overacp.Registry.Agent.{AgentEntry, lookup}
use overacp.Registry.Queue.Laws.{push_behaviour}
use overacp.Registry.Queue.{len, slot_of}

module _ (ch : Mpsc) where
  open ch use {Chans, Tx, send, queued, queued-send}

  -- No live tunnel takes the frame: the agent has no entry, or the receiver of its channel is gone.
  abbrev pub NoTunnel : State ch → Uuid → String → Type 0
  NoTunnel st agent_id frame =
      (lookup st.registry agent_id ≡ none)
      ⊎ ((entry : AgentEntry Tx) × (lookup st.registry agent_id ≡ some entry)
          × (send entry.tx frame st.chans ≡ none))

  abbrev pub SameSlots : State ch → State ch → Type 0
  SameSlots st st' =
      (other : Uuid) → slot_of st'.message_queue other ≡ slot_of st.message_queue other

  -- Where a posted frame went, by the reply.
  pub data Posted (texts : Texts) (st st' : State ch) (agent_id : Uuid) (frame : String)
      (reply : Result ApiError HowDelivered) : Type 0 where
    -- Behind the frames of the channel of the agent's entry; no buffer changed.
    sent_inline :
        (entry : AgentEntry Tx)
        → reply ≡ ok inline
        → lookup st.registry agent_id ≡ some entry
        → queued entry.tx st'.chans ≡ queued entry.tx st.chans ++ frame ∷ []
        → SameSlots st st'
        → Posted texts st st' agent_id frame reply
    -- At the end of the agent's buffer, which had room.
    buffered :
        reply ≡ ok queued_up
        → NoTunnel st agent_id frame
        → st'.chans ≡ st.chans
        → len st.message_queue agent_id < st.message_queue.per_agent_capacity
        → slot_of st'.message_queue agent_id ≡ slot_of st.message_queue agent_id ++ frame ∷ []
        → ((other : Uuid)
            → agent_id ≢ other
            → slot_of st'.message_queue other ≡ slot_of st.message_queue other)
        → Posted texts st st' agent_id frame reply
    -- Nowhere, since the buffer was full.
    refused :
        reply ≡ err (queue_full texts agent_id st.message_queue.per_agent_capacity)
        → NoTunnel st agent_id frame
        → st'.chans ≡ st.chans
        → st.message_queue.per_agent_capacity ≤ len st.message_queue agent_id
        → SameSlots st st'
        → Posted texts st st' agent_id frame reply

  enqueue-Posted :
      (texts : Texts) (st : State ch) (agent_id : Uuid) (frame : String)
      → NoTunnel st agent_id frame
      → Posted texts st
          (enqueue ch texts st agent_id (no_tunnel frame)).0
          agent_id
          frame
          (enqueue ch texts st agent_id (no_tunnel frame)).1
  unfolding enqueue
  enqueue-Posted texts st agent_id frame away =
      elim (push_behaviour st.message_queue agent_id frame) [
        | inl (at_limit, e, same) ↦ refused (rw (e, enqueue)) away refl at_limit same
        | inr (below, e, added, same) ↦ buffered (rw (e, enqueue)) away refl below added same
      ]

  registry-enqueue :
      (texts : Texts) (st : State ch) (agent_id : Uuid) (outcome : DeliveryOutcome)
      → (enqueue ch texts st agent_id outcome).0.registry ≡ st.registry
  unfolding enqueue
  registry-enqueue texts st agent_id live = refl
  registry-enqueue texts st agent_id (no_tunnel frame) = refl

  post_frame :
      (texts : Texts) (st : State ch) (agent_id : Uuid) (frame : String)
      → let (c, outcome) = deliver ch st.registry st.chans agent_id frame in
        let r = enqueue ch texts (record st { chans = c }) agent_id outcome in
        Posted texts st r.0 agent_id frame r.1
  unfolding deliver enqueue
  post_frame texts st agent_id frame = elim (Option-cases (lookup st.registry agent_id)) [
    | inl nobody ↦ rw nobody (enqueue-Posted texts st agent_id frame (inl nobody))
    | inr (entry, found) ↦ elim (Option-cases (send entry.tx frame st.chans)) [
      | inl gone ↦
          rw (found, gone) (enqueue-Posted texts st agent_id frame (inr (entry, found, gone)))
      | inr (c', taken) ↦
          rw (found, taken)
            (sent_inline entry refl found (queued-send entry.tx frame st.chans c' taken)
              (λ other. refl))
    ]
  ]

  -- Posting a message with a role leaves the registry as it was, and puts the printed notification in
  -- exactly the place that the reply names: `inline` behind the frames of the agent's channel, `queued_up`
  -- at the end of the agent's buffer when no live tunnel took it and there was room, and nowhere with the
  -- 503 error when the buffer was full. With an empty role nothing changes and the reply is a 400 error.
  pub send_message-Posted :
      (serde : Serde) (texts : Texts) (st : State ch) (agent_id : Uuid) (req : SendMessageRequest)
      → let r = send_message ch serde texts st agent_id req in
        (r.0.registry ≡ st.registry)
        × (((str_len req.role ≡ 0)
              × (r.0 ≡ st)
              × (r.1 ≡ err (bad_request "'role' must not be empty")))
            ⊎ Posted texts st r.0 agent_id (serde.to_string (session_message req)) r.1)
  unfolding send_message
  send_message-Posted serde texts st agent_id req =
      elim (Bool-cases (nat_beq (str_len req.role) 0)) [
        | inl empty ↦ rw empty (refl, inl (ground arith, refl, refl))
        | inr named ↦ rw named (
          registry-enqueue texts _ agent_id _,
          inr (post_frame texts st agent_id (serde.to_string (session_message req))),
        )
      ]
