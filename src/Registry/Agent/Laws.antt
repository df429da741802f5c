-- ===== src/Registry/Agent/Laws.antt =====
-- server/src/registry/agent.rs: the invariant of the two tables, over any history of operations.
-- Keys of the table are unique, the log is bounded and names an agent at most once, and no agent
-- is in both.
use overacp.Auth.{Claims}
use overacp.Prelude.Map.{IsMap, get, get-insert, get-remove, insert-IsMap, remove-IsMap}
use overacp.Prelude.{
  Bool-cases, List, Option, Uuid, [], arith, false, inl, inr, length, length-retain-le, nat_beq,
  nat_eq, none, refl, some, string_eq, ℕ, ◌∷◌, ◌≡◌, ◌≢◌, ◌≤◌, ◌⊎◌,
}
use overacp.Registry.Agent.Log.{
  Distinct, Distinct-push_recent, Distinct-retain, find_recent-push_recent_other,
  find_recent-push_recent_self, find_recent-retain, length-push_recent-le,
}
use overacp.Registry.Agent.{
  AgentEntry, AgentRegistry, RecentEntry, TunnelLease, acquire, describe, disconnect, drop_lease,
  find_recent, forget, is_connected, lookup, new, new_entry, other_than, recent_capacity, register,
  secs_since, touch, touch_entry, touched, unregister,
}

pub record IsValid {Tx : Type 0} (reg : AgentRegistry Tx) : Type 0 where
  pub keys : IsMap reg.connected
  pub distinct : Distinct reg.recent
  pub bounded : length reg.recent ≤ recent_capacity
  pub apart :
      (agent_id : Uuid) → (find_recent agent_id reg.recent ≡ none) ⊎ (lookup reg agent_id ≡ none)

module _ {Tx : Type 0} where
  pub register-IsValid :
      (reg : AgentRegistry Tx) (agent_id : Uuid) (entry : AgentEntry Tx)
      → IsValid reg
      → IsValid (register reg agent_id entry).0
  unfolding register lookup
  register-IsValid reg agent_id entry v = record {
    keys = insert-IsMap agent_id entry reg.connected v.keys;
    distinct = Distinct-retain agent_id reg.recent v.distinct;
    bounded = omega (arith, v.bounded, length-retain-le (other_than agent_id) reg.recent);
    apart = λ other. ground (
      arith,
      v.apart other,
      find_recent-retain agent_id other reg.recent,
      get-insert agent_id other entry reg.connected,
    );
  }

  forget-IsValid :
      (reg : AgentRegistry Tx) (agent_id : Uuid) (now : ℕ) (found : Option (AgentEntry Tx))
      → IsValid reg
      → IsValid (forget agent_id now reg found)
  unfolding unregister
  forget-IsValid reg agent_id now none v = v
  forget-IsValid reg agent_id now (some entry) v =
      let r : RecentEntry = record {
        agent_id = agent_id;
        user = entry.claims.user;
        disconnected_at = now;
      } in
      record {
        keys = remove-IsMap agent_id reg.connected v.keys;
        distinct = Distinct-push_recent reg.recent r v.distinct;
        bounded = length-push_recent-le reg.recent r v.bounded;
        apart = λ other. elim (Bool-cases (nat_beq agent_id other)) [
          | inl same ↦ inr (ground (arith, get-remove agent_id other reg.connected))
          | inr other_agent ↦ ground (
            arith,
            v.apart other,
            get-remove agent_id other reg.connected,
            find_recent-push_recent_other reg.recent r other v.distinct (λ e. ground arith),
          )
        ];
      }

  pub unregister-IsValid :
      (reg : AgentRegistry Tx) (agent_id : Uuid) (now : ℕ)
      → IsValid reg
      → IsValid (unregister reg agent_id now)
  unfolding unregister
  unregister-IsValid reg agent_id now v = forget-IsValid reg agent_id now (lookup reg agent_id) v

  touched-IsValid :
      (reg : AgentRegistry Tx) (agent_id : Uuid) (now : ℕ) (found : Option (AgentEntry Tx))
      → lookup reg agent_id ≡ found
      → IsValid reg
      → IsValid (touched agent_id now reg found)
  unfolding touch
  touched-IsValid reg agent_id now none e v = v
  touched-IsValid reg agent_id now (some entry) e v = record {
    keys = insert-IsMap agent_id (touch_entry entry now) reg.connected v.keys;
    distinct = v.distinct;
    bounded = v.bounded;
    apart = λ other. ground (
      arith,
      v.apart other,
      v.apart agent_id,
      get-insert agent_id other (touch_entry entry now) reg.connected,
    );
  }

  pub touch-IsValid :
      (reg : AgentRegistry Tx) (agent_id : Uuid) (now : ℕ)
      → IsValid reg
      → IsValid (touch reg agent_id now)
  unfolding touch
  touch-IsValid reg agent_id now v = touched-IsValid reg agent_id now (lookup reg agent_id) refl v

-- The calls that change the registry.
pub data Op (Tx : Type 0) : Type 0 where
  acquires : Uuid → Tx → Claims → Op Tx
  drops : TunnelLease → Op Tx
  disconnects : Uuid → Op Tx
  touches : Uuid → Op Tx

module _ {Tx : Type 0} where
  unfoldable pub apply : AgentRegistry Tx → ℕ × Op Tx → AgentRegistry Tx
  unfolding acquire drop_lease disconnect touch
  apply reg (now, acquires agent_id tx claims) = (acquire reg agent_id tx claims now).0
  apply reg (now, drops lease) = drop_lease reg lease now
  apply reg (now, disconnects agent_id) = disconnect reg agent_id now
  apply reg (now, touches agent_id) = touch reg agent_id now

  unfoldable pub run : AgentRegistry Tx → List (ℕ × Op Tx) → AgentRegistry Tx
  run reg [] = reg
  run reg (op ∷ ops) = run (apply reg op) ops

  apply-IsValid : (reg : AgentRegistry Tx) (op : ℕ × Op Tx) → IsValid reg → IsValid (apply reg op)
  unfolding apply
  apply-IsValid reg (now, acquires agent_id tx claims) v =
      register-IsValid reg agent_id (new_entry tx claims now) v
  apply-IsValid reg (now, drops lease) v = unregister-IsValid reg lease.agent_id now v
  apply-IsValid reg (now, disconnects agent_id) v = unregister-IsValid reg agent_id now v
  apply-IsValid reg (now, touches agent_id) v = touch-IsValid reg agent_id now v

  run-IsValid :
      (reg : AgentRegistry Tx) (ops : List (ℕ × Op Tx)) → IsValid reg → IsValid (run reg ops)
  unfolding run
  run-IsValid reg [] v = v
  run-IsValid reg (op ∷ ops) v = run-IsValid (apply reg op) ops (apply-IsValid reg op v)

-- After any history of acquires, lease drops, disconnects and touches that starts from the empty
-- registry: the log of recent agents has at most 64 entries, names no agent twice, and no agent is
-- both connected and in the log; the table has each agent at most once.
pub run-new-IsValid : {Tx : Type 0} (ops : List (ℕ × Op Tx)) → IsValid (run (new Tx) ops)
unfolding new lookup find_recent get
run-new-IsValid {Tx} ops =
    run-IsValid (new Tx) ops
      (record { keys = tt; distinct = tt; bounded = omega arith; apart = λ agent_id. inl refl })

-- In a registry that keeps its invariant, after a connected agent is unregistered it is not
-- connected, is described as disconnected with its user and an idle time of 0 seconds, and the entry
-- of every other agent is as it was.
pub unregister_behaviour :
    {Tx : Type 0} (reg : AgentRegistry Tx) (agent_id : Uuid) (now : ℕ) (entry : AgentEntry Tx)
    → IsValid reg
    → lookup reg agent_id ≡ some entry
    → let reg' = unregister reg agent_id now in
      (is_connected reg' agent_id ≡ false)
      × (describe reg' agent_id now
          ≡ some (record {
            agent_id = agent_id;
            connected = false;
            uptime_secs = none;
            idle_secs = some 0;
            user = entry.claims.user;
          }))
      × ((other : Uuid) → agent_id ≢ other → lookup reg' other ≡ lookup reg other)
unfolding unregister describe is_connected secs_since
unregister_behaviour reg agent_id now entry v found =
    let r : RecentEntry = record {
      agent_id = agent_id;
      user = entry.claims.user;
      disconnected_at = now;
    } in
    (
      ground (arith, get-remove agent_id agent_id reg.connected),
      ground (
        arith,
        get-remove agent_id agent_id reg.connected,
        find_recent-push_recent_self reg.recent r v.distinct,
      ),
      λ other apart. ground (arith, get-remove agent_id other reg.connected),
    )
