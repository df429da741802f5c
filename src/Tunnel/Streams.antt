-- ===== src/Tunnel/Streams.antt =====
-- server/src/tunnel/broker.rs: the fan-out of an agent's stream, in memory. The broadcast channels of
-- tokio are a parameter, with the operations that are called.
use overacp.Prelude.Map.{Map, get, get-insert, insert}
use overacp.Prelude.{
  List, Option, String, Uuid, [], arith, beq_refl, nat_eq, none, refl, same_iff, some, string_eq, ℕ,
  ◌∙◌, ◌∷◌, ◌≡◌,
}

pub record Broadcast : Type 1 where
  pub Buses : Type 0
  pub Sender : Type 0
  pub Receiver : Type 0
  pub channel : ℕ → Buses → Sender × Buses
  pub send : Sender → String → Buses → Option Buses
  pub subscribe : Sender → Buses → Receiver × Buses

abbrev stream_buffer : ℕ
stream_buffer = 128

pub record StreamBroker (bc : Broadcast) : Type 0 where
  pub bus : Map Uuid bc.Sender
  pub buses : bc.Buses

-- What a send leaves, when its error is ignored.
abbrev or_same : {A : Type 0} → Option A → A → A
or_same none a = a
or_same (some b) a = b

module _ (bc : Broadcast) where
  abbrev found_or_new : Option bc.Sender → Uuid → StreamBroker bc → bc.Sender × StreamBroker bc
  found_or_new (some sender) agent_id b = (sender, b)
  found_or_new none agent_id b =
      let (sender, made) = bc.channel stream_buffer b.buses in
      (sender, record { bus = insert agent_id sender b.bus; buses = made })

  unfoldable pub sender_for : Uuid → StreamBroker bc → bc.Sender × StreamBroker bc
  sender_for agent_id b = found_or_new (get agent_id b.bus) agent_id b

  unfoldable pub publish : Uuid → String → StreamBroker bc → StreamBroker bc
  publish agent_id frame b =
      let (sender, after) = sender_for agent_id b in
      record after { buses = or_same (bc.send sender frame after.buses) after.buses }

  unfoldable pub subscribe : Uuid → StreamBroker bc → bc.Receiver × StreamBroker bc
  subscribe agent_id b =
      let (sender, after) = sender_for agent_id b in
      let (receiver, more) = bc.subscribe sender after.buses in
      (receiver, record after { buses = more })

  pub data StreamOp : Type 0 where
    published : Uuid → String → StreamOp
    subscribed : Uuid → StreamOp

  unfoldable pub after_ops : List StreamOp → StreamBroker bc → StreamBroker bc
  after_ops [] b = b
  after_ops (published agent_id frame ∷ ops) b = after_ops ops (publish agent_id frame b)
  after_ops (subscribed agent_id ∷ ops) b = after_ops ops ((subscribe agent_id b).1)

  -- A sender that is in the table stays there.
  found_or_new-keeps :
      (o : Option bc.Sender) (other agent_id : Uuid) (s : bc.Sender) (b : StreamBroker bc)
      → get other b.bus ≡ o
      → get agent_id b.bus ≡ some s
      → get agent_id ((found_or_new o other b).1.bus) ≡ some s
  found_or_new-keeps (some sender) other agent_id s b e h = h
  found_or_new-keeps none other agent_id s b e h =
      get-insert other agent_id _ b.bus ∙ ground (arith, same_iff other agent_id)

  after_ops-keeps :
      (ops : List StreamOp) (agent_id : Uuid) (s : bc.Sender) (b : StreamBroker bc)
      → get agent_id b.bus ≡ some s
      → get agent_id ((after_ops ops b).bus) ≡ some s
  unfolding after_ops publish subscribe sender_for
  after_ops-keeps [] agent_id s b h = h
  after_ops-keeps (published other frame ∷ ops) agent_id s b h =
      after_ops-keeps ops agent_id s _
        (found_or_new-keeps (get other b.bus) other agent_id s b refl h)
  after_ops-keeps (subscribed other ∷ ops) agent_id s b h =
      after_ops-keeps ops agent_id s _
        (found_or_new-keeps (get other b.bus) other agent_id s b refl h)

  found_or_new-found :
      (o : Option bc.Sender) (agent_id : Uuid) (b : StreamBroker bc)
      → get agent_id b.bus ≡ o
      → get agent_id ((found_or_new o agent_id b).1.bus) ≡ some ((found_or_new o agent_id b).0)
  found_or_new-found (some sender) agent_id b e = e
  found_or_new-found none agent_id b e =
      get-insert agent_id agent_id _ b.bus ∙ rw (beq_refl agent_id) refl

  -- Whatever is published and subscribed to in between, for whatever agents, an agent keeps the
  -- channel that it got when it was first named: what is published for it later goes to the channel
  -- that the earlier subscribers read.
  pub sender_for-after_ops :
      (ops : List StreamOp) (agent_id : Uuid) (b : StreamBroker bc)
      → (sender_for agent_id (after_ops ops ((sender_for agent_id b).1))).0
        ≡ (sender_for agent_id b).0
  unfolding sender_for
  sender_for-after_ops ops agent_id b =
      let first = found_or_new (get agent_id b.bus) agent_id b in
      let kept : get agent_id ((after_ops ops (first.1)).bus) ≡ some (first.0) =
        after_ops-keeps ops agent_id (first.0) (first.1)
          (found_or_new-found (get agent_id b.bus) agent_id b refl) in
      rw kept refl
