-- ===== src/Broker/Endings.antt =====
-- server/src/registry/agent.rs, server/src/tunnel/run.rs and server/src/api/agents.rs: what the end of
-- a tunnel and a forced disconnect do.
use overacp.Auth.{Claims}
use overacp.Broker.Races.{deliver-away, is_connected_of_lookup}
use overacp.Broker.Sessions.{
  is_closed-drop_entry, is_closed-open_tunnel, lookup-open_tunnel, send_all-open,
}
use overacp.Broker.{
  DeliveryOutcome, State, Texts, close_tunnel, deliver, disconnect_agent, drop_entry, no_tunnel,
  open_tunnel, send_all,
}
use overacp.Channels.{Mpsc}
use overacp.Prelude.Map.{get-remove}
use overacp.Prelude.Result.{ok}
use overacp.Prelude.{
  Option, String, Uuid, ap, arith, false, nat_eq, none, refl, string_eq, suc, true, ℕ, ◌-◌, ◌∙◌,
  ◌≡◌, ◌≢◌,
}
use overacp.Registry.Agent.{
  AgentEntry, AgentRegistry, TunnelLease, is_connected, lookup, new_entry, unregister,
}
use overacp.Registry.Queue.{slot_of}

module _ (ch : Mpsc) where
  open ch use {
    Chans, Tx, send, queued, senders, clone_tx, drop_tx, is_closed, queued-send, is_closed-send,
    senders-clone_tx, senders-drop_tx, is_closed-drop_tx, is_closed-clone_tx, close_rx,
    is_closed-close_rx, is_closed-close_rx_other,
  }

  lookup-unregister :
      (reg : AgentRegistry Tx) (agent_id : Uuid) (now : ℕ)
      → lookup (unregister reg agent_id now) agent_id ≡ none
  unfolding unregister lookup
  lookup-unregister reg agent_id now = ground (arith, get-remove agent_id agent_id reg.connected)

  not_connected_of_lookup :
      (reg : AgentRegistry Tx) (agent_id : Uuid)
      → lookup reg agent_id ≡ none
      → is_connected reg agent_id ≡ false
  unfolding is_connected lookup
  not_connected_of_lookup reg agent_id gone = rw gone refl

  close_tunnel_keeps :
      (st : State ch) (lease : TunnelLease) (tx other : Tx) (now : ℕ)
      → other ≢ tx
      → let st' = close_tunnel ch st lease tx now in
        (lookup st'.registry lease.agent_id ≡ none)
        × (is_closed other st'.chans ≡ is_closed other st.chans)
        × (is_closed tx st'.chans ≡ true)
  unfolding close_tunnel
  close_tunnel_keeps st lease tx other now apart = (
    lookup-unregister st.registry lease.agent_id now,
    is_closed-drop_tx tx other _
        ∙ is_closed-close_rx_other tx other _ apart
        ∙ is_closed-drop_entry ch (lookup st.registry lease.agent_id) other st.chans,
    is_closed-drop_tx tx tx _ ∙ is_closed-close_rx tx _,
  )

  -- An agent that connects again before its old tunnel has ended, over another channel, with a live
  -- receiver: when the old tunnel ends, the drop of its lease unregisters the new one. The agent
  -- then counts as disconnected and frames for it are turned away, though the new channel is open
  -- and only the old one is closed.
  pub stale_close_disconnects :
      (st : State ch) (agent_id : Uuid) (tx1 tx2 : Tx) (claims1 claims2 : Claims) (t1 t2 t3 : ℕ)
      (frame : String)
      → tx2 ≢ tx1
      → is_closed tx2 st.chans ≡ false
      → let (st1, lease1) = open_tunnel ch st agent_id tx1 claims1 t1 in
        let (st2, lease2) = open_tunnel ch st1 agent_id tx2 claims2 t2 in
        let st3 = close_tunnel ch st2 lease1 tx1 t3 in
        (is_connected st2.registry agent_id ≡ true)
        × (is_connected st3.registry agent_id ≡ false)
        × ((deliver ch st3.registry st3.chans agent_id frame).1 ≡ no_tunnel frame)
        × (is_closed tx2 st3.chans ≡ false)
        × (is_closed tx1 st3.chans ≡ true)
  unfolding open_tunnel
  stale_close_disconnects st agent_id tx1 tx2 claims1 claims2 t1 t2 t3 frame apart o =
      let (st1, lease1) = open_tunnel ch st agent_id tx1 claims1 t1 in
      let (st2, lease2) = open_tunnel ch st1 agent_id tx2 claims2 t2 in
      let st3 = close_tunnel ch st2 lease1 tx1 t3 in
      let (gone, still, ended) = close_tunnel_keeps st2 lease1 tx1 tx2 t3 apart in
      (
        is_connected_of_lookup ch st2.registry agent_id (new_entry tx2 claims2 t2)
            (lookup-open_tunnel ch st1 agent_id tx2 claims2 t2),
        not_connected_of_lookup st3.registry agent_id gone,
        ap (λ (r : Chans × DeliveryOutcome). r.1)
            (deliver-away ch st3.registry st3.chans agent_id frame gone),
        still
            ∙ is_closed-open_tunnel ch st1 agent_id tx2 tx2 claims2 t2
            ∙ is_closed-open_tunnel ch st agent_id tx1 tx2 claims1 t1
            ∙ o,
        ended,
      )

  senders-open_tunnel :
      (st : State ch) (agent_id : Uuid) (tx : Tx) (claims : Claims) (now : ℕ)
      → lookup st.registry agent_id ≡ none
      → is_closed tx st.chans ≡ false
      → senders tx (open_tunnel ch st agent_id tx claims now).0.chans ≡ suc (senders tx st.chans)
  unfolding open_tunnel
  senders-open_tunnel st agent_id tx claims now away o =
      let (_, _, kept) =
        send_all-open ch tx (slot_of st.message_queue agent_id) (clone_tx tx st.chans)
          (is_closed-clone_tx tx tx st.chans ∙ o) in
      ap
        (λ (found : Option (AgentEntry Tx)). senders tx (
          send_all ch tx (slot_of st.message_queue agent_id)
            (drop_entry ch found (clone_tx tx st.chans))))
        away
      ∙ kept
      ∙ senders-clone_tx tx st.chans

  -- After `DELETE /agents/{id}` for an agent with no earlier tunnel, whose tunnel was just opened
  -- over a channel with a live receiver and one sender: the reply is 202 and the agent is not
  -- connected, but the tunnel's own sender still keeps its channel alive.
  pub disconnect_keeps_channel :
      (texts : Texts) (st : State ch) (agent_id : Uuid) (tx : Tx) (claims : Claims) (t1 t2 : ℕ)
      → lookup st.registry agent_id ≡ none
      → is_closed tx st.chans ≡ false
      → senders tx st.chans ≡ 1
      → let st1 = (open_tunnel ch st agent_id tx claims t1).0 in
        let (st2, reply) = disconnect_agent ch texts st1 agent_id t2 in
        (reply ≡ ok 202) × (is_connected st2.registry agent_id ≡ false) × (senders tx st2.chans ≡ 1)
  unfolding disconnect_agent new_entry
  disconnect_keeps_channel texts st agent_id tx claims t1 t2 away o one =
      let st1 = (open_tunnel ch st agent_id tx claims t1).0 in
      let l = lookup-open_tunnel ch st agent_id tx claims t1 in
      rw (is_connected_of_lookup ch st1.registry agent_id (new_entry tx claims t1) l) (
        refl,
        not_connected_of_lookup (unregister st1.registry agent_id t2) agent_id
            (lookup-unregister st1.registry agent_id t2),
        ap (λ (found : Option (AgentEntry Tx)). senders tx (drop_entry ch found st1.chans)) l
            ∙ senders-drop_tx tx st1.chans
            ∙ ap (λ (n : ℕ). n - 1)
                (senders-open_tunnel st agent_id tx claims t1 away o ∙ ap suc one),
      )
