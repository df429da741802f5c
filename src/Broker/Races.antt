-- ===== src/Broker/Races.antt =====
-- server/src/tunnel/run.rs and server/src/api/agents.rs: interleavings of a tunnel's life with the
-- REST handlers, each a fixed order of the steps that the two sides make.
use overacp.Auth.{Claims}
use overacp.Broker.Sessions.{
  acquire_tunnel-keeps, open_tunnel_delivers, send_all-open, send_of_open,
}
use overacp.Broker.{
  State, Texts, acquire_tunnel, deliver, drain_buffered, enqueue, live, no_tunnel, open_tunnel,
  queued_up,
}
use overacp.Channels.{Mpsc}
use overacp.Prelude.Result.{ok}
use overacp.Prelude.{
  List, String, Uuid, [], ap, arith, false, inl, inr, nat_eq, none, refl, some, string_eq, true, ℕ,
  ◌++◌, ◌<◌, ◌∙◌, ◌∷◌, ◌≡◌,
}
use overacp.Registry.Agent.{AgentEntry, AgentRegistry, is_connected, lookup, new_entry}
use overacp.Registry.Queue.Laws.{push_behaviour}
use overacp.Registry.Queue.{len, slot_of}

module _ (ch : Mpsc) where
  open ch use {
    Chans, Tx, send, queued, senders, clone_tx, drop_tx, is_closed, queued-send, is_closed-send,
    senders-clone_tx, senders-drop_tx, is_closed-drop_tx, is_closed-clone_tx,
  }

  pub deliver-away :
      (reg : AgentRegistry Tx) (c : Chans) (agent_id : Uuid) (frame : String)
      → lookup reg agent_id ≡ none
      → deliver ch reg c agent_id frame ≡ (c, no_tunnel frame)
  unfolding deliver
  deliver-away reg c agent_id frame away = rw away refl

  enqueue-room :
      (texts : Texts) (st : State ch) (agent_id : Uuid) (frame : String)
      → len st.message_queue agent_id < st.message_queue.per_agent_capacity
      → let (st', reply) = enqueue ch texts st agent_id (no_tunnel frame) in
        (reply ≡ ok queued_up)
        × (st'.registry ≡ st.registry)
        × (slot_of st'.message_queue agent_id ≡ slot_of st.message_queue agent_id ++ frame ∷ [])
        × (st'.chans ≡ st.chans)
  unfolding enqueue
  enqueue-room texts st agent_id frame room =
      elim (push_behaviour st.message_queue agent_id frame) [
        | inl (at_limit, _, _) ↦ absurd (omega arith)
        | inr (below, e, added, same) ↦ (rw (e, enqueue) refl, refl, added, refl)
      ]

  -- `deliver` over an open channel of the agent's entry is live.
  deliver-live :
      (reg : AgentRegistry Tx) (c : Chans) (agent_id : Uuid) (frame : String)
      (entry : AgentEntry Tx)
      → lookup reg agent_id ≡ some entry
      → is_closed entry.tx c ≡ false
      → (c' : Chans) × (send entry.tx frame c ≡ some c')
        × (deliver ch reg c agent_id frame ≡ (c', live))
  unfolding deliver
  deliver-live reg c agent_id frame entry found o =
      let (c', e) = send_of_open ch entry.tx frame c o in (c', e, rw (found, e) refl)

  -- A message that is delivered after a tunnel was acquired over a new, empty channel with a live
  -- receiver, and before the buffer is drained, is taken as live and stands in front of all the
  -- buffered frames.
  pub live_overtakes_buffered :
      (st : State ch) (agent_id : Uuid) (tx : Tx) (claims : Claims) (now : ℕ) (frame : String)
      → is_closed tx st.chans ≡ false
      → queued tx st.chans ≡ []
      → let st1 = (acquire_tunnel ch st agent_id tx claims now).0 in
        let (c, outcome) = deliver ch st1.registry st1.chans agent_id frame in
        (outcome ≡ live)
        × (queued tx (drain_buffered ch (record st1 { chans = c }) agent_id tx).chans
            ≡ frame ∷ slot_of st.message_queue agent_id)
  unfolding drain_buffered acquire_tunnel new_entry
  live_overtakes_buffered st agent_id tx claims now frame o fresh =
      let st1 = (acquire_tunnel ch st agent_id tx claims now).0 in
      let (q, o1, m, l) = acquire_tunnel-keeps ch st agent_id tx claims now in
      let (c', e, d) =
        deliver-live st1.registry st1.chans agent_id frame (new_entry tx claims now) l (o1 ∙ o) in
      let (waiting, _, _) =
        send_all-open ch tx (slot_of st.message_queue agent_id) c'
          (is_closed-send tx tx frame st1.chans c' e ∙ (o1 ∙ o)) in
      rw d (
        refl,
        waiting
            ∙ ap (λ (first : List String). first ++ slot_of st.message_queue agent_id)
                (queued-send tx frame st1.chans c' e
                  ∙ ap (λ (first : List String). first ++ frame ∷ []) (q ∙ fresh)),
      )

  open_tunnel-room :
      (st : State ch) (agent_id : Uuid) (tx : Tx) (claims : Claims) (now : ℕ)
      → let q = (open_tunnel ch st agent_id tx claims now).0.message_queue in
        slot_of q agent_id ≡ []
        → 0 < st.message_queue.per_agent_capacity
        → len q agent_id < q.per_agent_capacity
  unfolding open_tunnel len
  open_tunnel-room st agent_id tx claims now e room = rw e room

  pub is_connected_of_lookup :
      (reg : AgentRegistry Tx) (agent_id : Uuid) (entry : AgentEntry Tx)
      → lookup reg agent_id ≡ some entry
      → is_connected reg agent_id ≡ true
  unfolding is_connected lookup
  is_connected_of_lookup reg agent_id entry found = rw found refl

  -- A message whose delivery found no tunnel, and that is put into the buffer only after the
  -- agent's tunnel was opened over a new, empty channel with a live receiver, in a queue with a
  -- capacity of at least one: the reply says that it is queued, the agent is connected, and the
  -- frame stays in the buffer while the agent's channel holds only what was buffered before.
  pub queued_after_drain :
      (texts : Texts) (st : State ch) (agent_id : Uuid) (tx : Tx) (claims : Claims) (now : ℕ)
      (frame : String)
      → lookup st.registry agent_id ≡ none
      → 0 < st.message_queue.per_agent_capacity
      → is_closed tx st.chans ≡ false
      → queued tx st.chans ≡ []
      → let (c, outcome) = deliver ch st.registry st.chans agent_id frame in
        let st1 = (open_tunnel ch (record st { chans = c }) agent_id tx claims now).0 in
        let (st2, reply) = enqueue ch texts st1 agent_id outcome in
        (reply ≡ ok queued_up)
        × (is_connected st2.registry agent_id ≡ true)
        × (slot_of st2.message_queue agent_id ≡ frame ∷ [])
        × (queued tx st2.chans ≡ slot_of st.message_queue agent_id)
  queued_after_drain texts st agent_id tx claims now frame away room o fresh =
      let st1 = (open_tunnel ch st agent_id tx claims now).0 in
      let (q, e, _, l) = open_tunnel_delivers ch st agent_id tx claims now o fresh in
      let (reply, reg, added, chans) =
        enqueue-room texts st1 agent_id frame (open_tunnel-room st agent_id tx claims now e room) in
      rw (deliver-away st.registry st.chans agent_id frame away) (
        reply,
        is_connected_of_lookup _ agent_id (new_entry tx claims now)
            (ap (λ (r : AgentRegistry Tx). lookup r agent_id) reg ∙ l),
        added ∙ ap (λ (first : List String). first ++ frame ∷ []) e,
        ap (queued tx) chans ∙ q,
      )
