-- ===== src/Registry/Queue.antt =====
-- server/src/registry/queue.rs: `InMemoryMessageQueue`, a bounded buffer of frames for each agent.
-- The lock of a slot is held for a whole operation, so an operation is one step on the table.
pub mod Laws
pub mod Examples
use overacp.Prelude.Map.{Map, get, insert, remove}
use overacp.Prelude.Result.{Result, err, ok}
use overacp.Prelude.{
  Bool, List, Option, String, Uuid, [], if◌then◌else◌, leb, length, nat_beq, nat_eq, none, some, ℕ,
  ◌++◌, ◌∷◌,
}

abbrev pub default_per_agent_capacity : ℕ
default_per_agent_capacity = 64

pub data QueueError : Type 0 where
  full : Uuid → ℕ → QueueError

pub record MessageQueue : Type 0 where
  pub inner : Map Uuid (List String)
  pub per_agent_capacity : ℕ

unfoldable pub new : ℕ → MessageQueue
new capacity = record { inner = []; per_agent_capacity = capacity }

abbrev pub or_empty : Option (List String) → List String
or_empty none = []
or_empty (some frames) = frames

-- `entry(agent_id).or_insert_with(VecDeque::new)`: the slot is made also when the push is refused.
unfoldable pub slot_of : MessageQueue → Uuid → List String
unfolding get
slot_of q agent_id = or_empty (get agent_id q.inner)

unfoldable pub push : MessageQueue → Uuid → String → MessageQueue × Result QueueError Unit
unfolding slot_of insert
push q agent_id frame =
    let slot = slot_of q agent_id in
    if leb q.per_agent_capacity (length slot)
    then (
      record q { inner = insert agent_id slot q.inner },
      err (full agent_id q.per_agent_capacity),
    )
    else (record q { inner = insert agent_id (slot ++ frame ∷ []) q.inner }, ok tt)

-- `remove` takes the slot out of the table; the loop of `pop_front` empties it front first.
unfoldable pub drain : MessageQueue → Uuid → MessageQueue × List String
unfolding slot_of remove
drain q agent_id = (record q { inner = remove agent_id q.inner }, slot_of q agent_id)

unfoldable pub len : MessageQueue → Uuid → ℕ
unfolding slot_of
len q agent_id = length (slot_of q agent_id)

unfoldable pub is_empty : MessageQueue → Uuid → Bool
unfolding len
is_empty q agent_id = nat_beq (len q agent_id) 0
