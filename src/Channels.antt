-- ===== src/Channels.antt =====
-- `tokio::sync::mpsc` as the broker uses it: the unbounded channel between the parts that send frames
-- to an agent and the write loop of its tunnel. The crate is not part of the repository, so its
-- operations and what its documentation says of them are the fields of a record that the other
-- modules take as a parameter.
pub mod Model
use overacp.Prelude.{
  Bool, List, Option, String, [], false, nat_eq, none, some, suc, true, ℕ, ◌++◌, ◌-◌, ◌∷◌, ◌≡◌, ◌≢◌,
}

pub record Mpsc : Type 1 where
  -- The state of all channels, and the senders.
  pub Chans : Type 0
  pub Tx : Type 0
  -- `send`, which fails once the receiver is gone.
  pub send : Tx → String → Chans → Option Chans
  -- The frames that were sent and not yet received, oldest first.
  pub queued : Tx → Chans → List String
  -- How many senders of this channel are alive. `recv` answers `None`, which ends the write loop,
  -- only when this is 0 and no frame is queued.
  pub senders : Tx → Chans → ℕ
  -- Clone and drop of one sender.
  pub clone_tx : Tx → Chans → Chans
  pub drop_tx : Tx → Chans → Chans
  -- Whether the receiver is gone.
  pub is_closed : Tx → Chans → Bool
  -- The drop of the receiver, with the frames that it has not taken.
  pub close_rx : Tx → Chans → Chans
  pub is_closed-close_rx : (tx : Tx) (c : Chans) → is_closed tx (close_rx tx c) ≡ true
  pub is_closed-close_rx_other :
      (tx other : Tx) (c : Chans) → other ≢ tx → is_closed other (close_rx tx c) ≡ is_closed other c
  pub senders-close_rx :
      (tx other : Tx) (c : Chans) → senders other (close_rx tx c) ≡ senders other c
  pub queued-close_rx_other :
      (tx other : Tx) (c : Chans) → other ≢ tx → queued other (close_rx tx c) ≡ queued other c
  pub queued-send :
      (tx : Tx) (frame : String) (c c' : Chans)
      → send tx frame c ≡ some c'
      → queued tx c' ≡ queued tx c ++ frame ∷ []
  pub queued-send_other :
      (tx other : Tx) (frame : String) (c c' : Chans)
      → send tx frame c ≡ some c'
      → other ≢ tx
      → queued other c' ≡ queued other c
  pub send-eq_none :
      (tx : Tx) (frame : String) (c : Chans) → is_closed tx c ≡ true → send tx frame c ≡ none
  pub send-ne_none :
      (tx : Tx) (frame : String) (c : Chans) → is_closed tx c ≡ false → send tx frame c ≢ none
  pub is_closed-send :
      (tx other : Tx) (frame : String) (c c' : Chans)
      → send tx frame c ≡ some c'
      → is_closed other c' ≡ is_closed other c
  pub is_closed-clone_tx :
      (tx other : Tx) (c : Chans) → is_closed other (clone_tx tx c) ≡ is_closed other c
  pub is_closed-drop_tx :
      (tx other : Tx) (c : Chans) → is_closed other (drop_tx tx c) ≡ is_closed other c
  pub senders-send :
      (tx other : Tx) (frame : String) (c c' : Chans)
      → send tx frame c ≡ some c'
      → senders other c' ≡ senders other c
  pub senders-clone_tx : (tx : Tx) (c : Chans) → senders tx (clone_tx tx c) ≡ suc (senders tx c)
  pub senders-drop_tx : (tx : Tx) (c : Chans) → senders tx (drop_tx tx c) ≡ senders tx c - 1
  pub senders-drop_tx_other :
      (tx other : Tx) (c : Chans) → other ≢ tx → senders other (drop_tx tx c) ≡ senders other c
  pub queued-clone_tx : (tx other : Tx) (c : Chans) → queued other (clone_tx tx c) ≡ queued other c
  pub queued-drop_tx : (tx other : Tx) (c : Chans) → queued other (drop_tx tx c) ≡ queued other c
