-- ===== src/Broker/Sessions.antt =====
-- server/src/tunnel/run.rs: the start of a tunnel, which hands the buffered frames over.
use mathlib.Core.List.{append-nil, append_assoc}
use overacp.Auth.{Claims}
use overacp.Broker.{State, acquire_tunnel, drop_entry, open_tunnel, send_all, sent}
use overacp.Channels.{Mpsc}
use overacp.Prelude.Map.{get-insert}
use overacp.Prelude.{
  List, Option, Option-cases, String, Uuid, [], ap, arith, false, inl, inr, nat_eq, none, refl,
  some, string_eq, sym, ℕ, ◌++◌, ◌∙◌, ◌∷◌, ◌≡◌, ◌≢◌,
}
use overacp.Registry.Agent.{AgentEntry, lookup, new_entry}
use overacp.Registry.Queue.Laws.{slot_of-drain}
use overacp.Registry.Queue.{drain, slot_of}

module _ (ch : Mpsc) where
  open ch use {
    Chans, Tx, send, queued, senders, clone_tx, drop_tx, is_closed, queued-send, is_closed-send,
    send-ne_none, senders-send, queued-clone_tx, queued-drop_tx, is_closed-clone_tx,
    is_closed-drop_tx,
  }

  pub send_of_open :
      (tx : Tx) (frame : String) (c : Chans)
      → is_closed tx c ≡ false
      → (c' : Chans) × (send tx frame c ≡ some c')
  send_of_open tx frame c o = elim (Option-cases (send tx frame c)) [
    | inl e ↦ absurd (send-ne_none tx frame c o e)
    | inr found ↦ found
  ]

  send_all_step :
      (tx : Tx) (frame : String) (frames : List String) (c c' : Chans)
      → send tx frame c ≡ some c'
      → send_all ch tx (frame ∷ frames) c ≡ send_all ch tx frames c'
  unfolding send_all
  send_all_step tx frame frames c c' e =
      ap (λ (o : Option Chans). send_all ch tx frames (sent ch frame c o).0) e

  -- A loop of sends to an open channel puts all the frames behind those that wait, in their order,
  -- and leaves the channel as open and as shared as it was.
  pub send_all-open :
      (tx : Tx) (frames : List String) (c : Chans)
      → is_closed tx c ≡ false
      → (queued tx (send_all ch tx frames c) ≡ queued tx c ++ frames)
        × (is_closed tx (send_all ch tx frames c) ≡ false)
        × (senders tx (send_all ch tx frames c) ≡ senders tx c)
  unfolding send_all
  send_all-open tx [] c o = (sym (append-nil (queued tx c)), o, refl)
  send_all-open tx (frame ∷ frames) c o =
      let (c', e) = send_of_open tx frame c o in
      let (q, o', n) = send_all-open tx frames c' (is_closed-send tx tx frame c c' e ∙ o) in
      rw (send_all_step tx frame frames c c' e) (
        rw q (rw (queued-send tx frame c c' e) (append_assoc (queued tx c) (frame ∷ []) frames)),
        o',
        n ∙ senders-send tx tx frame c c' e,
      )

  drop_entry-keeps :
      (found : Option (AgentEntry Tx)) (tx : Tx) (c : Chans)
      → (queued tx (drop_entry ch found c) ≡ queued tx c)
        × (is_closed tx (drop_entry ch found c) ≡ is_closed tx c)
  drop_entry-keeps none tx c = (refl, refl)
  drop_entry-keeps (some entry) tx c =
      (queued-drop_tx entry.tx tx c, is_closed-drop_tx entry.tx tx c)

  pub acquire_tunnel-keeps :
      (st : State ch) (agent_id : Uuid) (tx : Tx) (claims : Claims) (now : ℕ)
      → let st' = (acquire_tunnel ch st agent_id tx claims now).0 in
        (queued tx st'.chans ≡ queued tx st.chans)
        × (is_closed tx st'.chans ≡ is_closed tx st.chans)
        × (st'.message_queue ≡ st.message_queue)
        × (lookup st'.registry agent_id ≡ some (new_entry tx claims now))
  unfolding acquire_tunnel
  acquire_tunnel-keeps st agent_id tx claims now =
      let (q, o) = drop_entry-keeps (lookup st.registry agent_id) tx (clone_tx tx st.chans) in
      (
        q ∙ queued-clone_tx tx tx st.chans,
        o ∙ is_closed-clone_tx tx tx st.chans,
        refl,
        ground
            (arith, get-insert agent_id agent_id (new_entry tx claims now) st.registry.connected),
      )

  -- Opening a tunnel over a new channel whose receiver is alive: the channel holds exactly the frames
  -- that were buffered for the agent, oldest first; the agent's buffer is empty and those of the
  -- others are as they were; the agent is routed to the new channel.
  pub open_tunnel_delivers :
      (st : State ch) (agent_id : Uuid) (tx : Tx) (claims : Claims) (now : ℕ)
      → is_closed tx st.chans ≡ false
      → queued tx st.chans ≡ []
      → let st' = (open_tunnel ch st agent_id tx claims now).0 in
        (queued tx st'.chans ≡ slot_of st.message_queue agent_id)
        × (slot_of st'.message_queue agent_id ≡ [])
        × ((other : Uuid)
            → agent_id ≢ other
            → slot_of st'.message_queue other ≡ slot_of st.message_queue other)
        × (lookup st'.registry agent_id ≡ some (new_entry tx claims now))
  unfolding open_tunnel
  open_tunnel_delivers st agent_id tx claims now o fresh =
      let st1 = (acquire_tunnel ch st agent_id tx claims now).0 in
      let (q, o1, m, l) = acquire_tunnel-keeps st agent_id tx claims now in
      let (sent_all, _, _) =
        send_all-open tx (drain st1.message_queue agent_id).1 st1.chans (o1 ∙ o) in
      (
        sent_all
            ∙ ap (λ (waiting : List String). waiting ++ slot_of st.message_queue agent_id)
                (q ∙ fresh),
        ground (arith, slot_of-drain st.message_queue agent_id agent_id),
        λ other apart. ground (arith, slot_of-drain st.message_queue agent_id other),
        l,
      )

  pub is_closed-send_all :
      (tx other : Tx) (frames : List String) (c : Chans)
      → is_closed other (send_all ch tx frames c) ≡ is_closed other c
  unfolding send_all
  is_closed-send_all tx other [] c = refl
  is_closed-send_all tx other (frame ∷ frames) c = elim (Option-cases (send tx frame c)) [
    | inl e ↦
        ap (λ (o : Option Chans). is_closed other (send_all ch tx frames (sent ch frame c o).0)) e
        ∙ is_closed-send_all tx other frames c
    | inr (c', e) ↦
        rw (send_all_step tx frame frames c c' e)
          (is_closed-send_all tx other frames c' ∙ is_closed-send tx other frame c c' e)
  ]

  pub is_closed-drop_entry :
      (found : Option (AgentEntry Tx)) (other : Tx) (c : Chans)
      → is_closed other (drop_entry ch found c) ≡ is_closed other c
  is_closed-drop_entry found other c = (drop_entry-keeps found other c).1

  pub is_closed-open_tunnel :
      (st : State ch) (agent_id : Uuid) (tx other : Tx) (claims : Claims) (now : ℕ)
      → is_closed other (open_tunnel ch st agent_id tx claims now).0.chans
        ≡ is_closed other st.chans
  unfolding open_tunnel
  is_closed-open_tunnel st agent_id tx other claims now =
      is_closed-send_all tx other (slot_of st.message_queue agent_id) _
      ∙ is_closed-drop_entry (lookup st.registry agent_id) other (clone_tx tx st.chans)
      ∙ is_closed-clone_tx tx other st.chans

  -- A tunnel that opens is in the routing table, whoever was there before.
  pub lookup-open_tunnel :
      (st : State ch) (agent_id : Uuid) (tx : Tx) (claims : Claims) (now : ℕ)
      → lookup (open_tunnel ch st agent_id tx claims now).0.registry agent_id
        ≡ some (new_entry tx claims now)
  unfolding open_tunnel
  lookup-open_tunnel st agent_id tx claims now = (acquire_tunnel-keeps st agent_id tx claims now).3
