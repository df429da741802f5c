-- ===== src/Registry/Agent/Examples.antt =====
-- Tests of server/src/registry/agent.rs, and the theorems at a concrete registry.
use overacp.Auth.{Claims, agent}
use overacp.Prelude.Int.{pos}
use overacp.Prelude.{List, Uuid, [], false, map, none, refl, some, true, ℕ, ◌∷◌, ◌≡◌}
use overacp.Registry.Agent.Laws.{
  IsValid, Op, acquires, apply, drops, run, run-new-IsValid, unregister_behaviour,
}
use overacp.Registry.Agent.Listing.{find_description, find_description-list}
use overacp.Registry.Agent.{
  AgentDescription, AgentEntry, AgentRegistry, describe, from_recent, is_connected, list, lookup,
  new, new_entry, secs_since, unregister,
}

abbrev claims_of : Uuid → Claims
unfolding agent
claims_of agent_id = agent agent_id (some 9) (pos 60) "test" (pos 0)

-- Agent 1 came and left, agent 2 is connected. Senders are numbers.
abbrev history : List (ℕ × Op ℕ)
history =
    (0, acquires 1 5 (claims_of 1))
    ∷ (1_000_000_000, drops (record { agent_id = 1 }))
    ∷ (2_000_000_000, acquires 2 6 (claims_of 2))
    ∷ []

abbrev two_agents : AgentRegistry ℕ
unfolding new run apply
two_agents = run (new ℕ) history

-- `list_orders_connected_first`
connected_first :
    map (λ (d : AgentDescription). d.connected) (list two_agents 3_000_000_000) ≡ true ∷ false ∷ []
unfolding new run apply list secs_since agent from_recent
connected_first = refl

-- `describe_unknown_agent_is_none`
unknown : describe two_agents 3 0 ≡ none
unfolding new run apply describe agent
unknown = refl

run-new-IsValid_example : IsValid (run (new ℕ) history)
run-new-IsValid_example = run-new-IsValid history

find_description-list_example : find_description 1 (list two_agents 5) ≡ describe two_agents 1 5
unfolding new run apply
find_description-list_example = find_description-list two_agents 1 5

abbrev entry_two : AgentEntry ℕ
unfolding agent new_entry
entry_two = new_entry 6 (claims_of 2) 2_000_000_000

unregister_behaviour_example :
    is_connected (unregister (run (new ℕ) history) 2 3_000_000_000) 2 ≡ false
unfolding new run apply agent new_entry lookup
unregister_behaviour_example =
    (unregister_behaviour (run (new ℕ) history) 2 3_000_000_000 entry_two (run-new-IsValid history)
      refl).0
