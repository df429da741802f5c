-- ===== src/Registry/Agent.antt =====
-- server/src/registry/agent.rs: `InMemoryAgentRegistry`, the table of connected agents with a bounded
-- log of those that left. `Tx` is the type of the senders of the tunnels' channels. Instants are
-- nanoseconds; the current one is an argument of the operations that read the clock.
pub mod Log
pub mod Laws
pub mod Listing
pub mod Examples
use overacp.Auth.{Claims}
use overacp.Prelude.Map.{Map, contains_key, get, insert, remove}
use overacp.Prelude.{
  Bool, List, Option, Uuid, [], false, if◌then◌else◌, length, nat_beq, nat_eq, none, not, retain,
  some, true, ℕ, ◌++◌, ◌-◌, ◌/◌, ◌∷◌,
}

abbrev pub recent_capacity : ℕ
recent_capacity = 64

pub record AgentEntry (Tx : Type 0) : Type 0 where
  pub tx : Tx
  pub claims : Claims
  pub connected_at : ℕ
  pub last_activity : ℕ

pub record AgentDescription : Type 0 where
  pub agent_id : Uuid
  pub connected : Bool
  pub uptime_secs : Option ℕ
  pub idle_secs : Option ℕ
  pub user : Option Uuid

pub record RecentEntry : Type 0 where
  pub agent_id : Uuid
  pub user : Option Uuid
  pub disconnected_at : ℕ

pub record AgentRegistry (Tx : Type 0) : Type 0 where
  pub connected : Map Uuid (AgentEntry Tx)
  pub recent : List RecentEntry

-- `now.saturating_duration_since(earlier).as_secs()`
unfoldable pub secs_since : ℕ → ℕ → ℕ
secs_since now earlier = (now - earlier) / 1_000_000_000

unfoldable pub from_recent : RecentEntry → ℕ → AgentDescription
from_recent entry now = record {
  agent_id = entry.agent_id;
  connected = false;
  uptime_secs = none;
  idle_secs = some (secs_since now entry.disconnected_at);
  user = entry.user;
}

unfoldable pub find_recent : Uuid → List RecentEntry → Option RecentEntry
find_recent agent_id [] = none
find_recent agent_id (r ∷ rs) =
    if nat_beq r.agent_id agent_id then some r else find_recent agent_id rs

-- The loop of `list` over the log: it skips the agents that are connected.
unfoldable pub list_recent : (Uuid → Bool) → ℕ → List RecentEntry → List AgentDescription
list_recent is_live now [] = []
list_recent is_live now (r ∷ rs) =
    let rest = list_recent is_live now rs in
    if is_live r.agent_id then rest else from_recent r now ∷ rest

abbrev pub other_than : Uuid → RecentEntry → Bool
other_than agent_id r = not (nat_beq r.agent_id agent_id)

abbrev pub pop_front : List RecentEntry → List RecentEntry
pop_front [] = []
pop_front (r ∷ rs) = rs

-- The three steps of `push_recent` under the lock of the log.
unfoldable pub push_recent : List RecentEntry → RecentEntry → List RecentEntry
push_recent recent entry =
    let rest = retain (other_than entry.agent_id) recent in
    (if nat_beq (length rest) recent_capacity then pop_front rest else rest) ++ entry ∷ []

unfoldable pub purge_recent : List RecentEntry → Uuid → List RecentEntry
purge_recent recent agent_id = retain (other_than agent_id) recent

-- The RAII guard of the in-memory registry: its drop runs `unregister(agent_id)`.
pub record TunnelLease : Type 0 where
  pub agent_id : Uuid

module _ {Tx : Type 0} where
  unfoldable pub new_entry : Tx → Claims → ℕ → AgentEntry Tx
  new_entry tx claims now = record {
    tx = tx;
    claims = claims;
    connected_at = now;
    last_activity = now;
  }

  unfoldable pub touch_entry : AgentEntry Tx → ℕ → AgentEntry Tx
  touch_entry entry now = record entry { last_activity = now }

  unfoldable pub from_connected : Uuid → AgentEntry Tx → ℕ → AgentDescription
  from_connected agent_id entry now = record {
    agent_id = agent_id;
    connected = true;
    uptime_secs = some (secs_since now entry.connected_at);
    idle_secs = some (secs_since now entry.last_activity);
    user = entry.claims.user;
  }

  unfoldable pub register :
      AgentRegistry Tx → Uuid → AgentEntry Tx → AgentRegistry Tx × Option (AgentEntry Tx)
  unfolding insert purge_recent get
  register reg agent_id entry = (
    record {
      connected = insert agent_id entry reg.connected;
      recent = purge_recent reg.recent agent_id;
    },
    get agent_id reg.connected,
  )

  unfoldable pub lookup : AgentRegistry Tx → Uuid → Option (AgentEntry Tx)
  unfolding get
  lookup reg agent_id = get agent_id reg.connected

  unfoldable pub is_connected : AgentRegistry Tx → Uuid → Bool
  unfolding contains_key
  is_connected reg agent_id = contains_key agent_id reg.connected

  -- The removed entry, which the source drops at the end of its `if let`, is left out.
  abbrev forget : Uuid → ℕ → AgentRegistry Tx → Option (AgentEntry Tx) → AgentRegistry Tx
  unfolding remove push_recent
  forget agent_id now reg none = reg
  forget agent_id now reg (some entry) = record {
    connected = remove agent_id reg.connected;
    recent =
        push_recent reg.recent
          (record { agent_id = agent_id; user = entry.claims.user; disconnected_at = now });
  }

  unfoldable pub unregister : AgentRegistry Tx → Uuid → ℕ → AgentRegistry Tx
  unfolding remove push_recent lookup
  unregister reg agent_id now = forget agent_id now reg (lookup reg agent_id)

  unfoldable pub list_connected : Map Uuid (AgentEntry Tx) → ℕ → List AgentDescription
  unfolding from_connected
  list_connected [] now = []
  list_connected ((agent_id, entry) ∷ m) now =
      from_connected agent_id entry now ∷ list_connected m now

  unfoldable pub list : AgentRegistry Tx → ℕ → List AgentDescription
  unfolding list_connected list_recent is_connected
  list reg now = list_connected reg.connected now ++ list_recent (is_connected reg) now reg.recent

  abbrev described :
      Uuid → ℕ → Option RecentEntry → Option (AgentEntry Tx) → Option AgentDescription
  unfolding from_connected from_recent
  described agent_id now recent (some entry) = some (from_connected agent_id entry now)
  described agent_id now (some r) none = some (from_recent r now)
  described agent_id now none none = none

  unfoldable pub describe : AgentRegistry Tx → Uuid → ℕ → Option AgentDescription
  unfolding from_connected from_recent lookup find_recent
  describe reg agent_id now =
      described agent_id now (find_recent agent_id reg.recent) (lookup reg agent_id)

  -- The methods of `AgentRegistryProvider`.
  unfoldable pub acquire :
      AgentRegistry Tx → Uuid → Tx → Claims → ℕ → AgentRegistry Tx × TunnelLease
  unfolding register new_entry
  acquire reg agent_id tx claims now =
      ((register reg agent_id (new_entry tx claims now)).0, record { agent_id = agent_id })

  unfoldable pub drop_lease : AgentRegistry Tx → TunnelLease → ℕ → AgentRegistry Tx
  unfolding unregister
  drop_lease reg lease now = unregister reg lease.agent_id now

  unfoldable pub disconnect : AgentRegistry Tx → Uuid → ℕ → AgentRegistry Tx
  unfolding unregister
  disconnect reg agent_id now = unregister reg agent_id now

  abbrev touched : Uuid → ℕ → AgentRegistry Tx → Option (AgentEntry Tx) → AgentRegistry Tx
  unfolding insert touch_entry
  touched agent_id now reg none = reg
  touched agent_id now reg (some entry) = record reg {
    connected = insert agent_id (touch_entry entry now) reg.connected;
  }

  unfoldable pub touch : AgentRegistry Tx → Uuid → ℕ → AgentRegistry Tx
  unfolding insert touch_entry lookup
  touch reg agent_id now = touched agent_id now reg (lookup reg agent_id)

unfoldable pub new : (Tx : Type 0) → AgentRegistry Tx
new Tx = record { connected = []; recent = [] }
