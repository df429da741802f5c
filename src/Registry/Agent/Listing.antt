-- ===== src/Registry/Agent/Listing.antt =====
-- server/src/registry/agent.rs: `list` and `describe` agree, and a listing names an agent once.
use overacp.Prelude.Map.{IsMap, Map, get}
use overacp.Prelude.{
  Bool, List, Option, Uuid, [], arith, if◌then◌else◌, is_some, nat_beq, nat_eq, none, refl, some,
  string_eq, true, ℕ, ◌++◌, ◌∷◌, ◌≡◌,
}
use overacp.Registry.Agent.Laws.{IsValid}
use overacp.Registry.Agent.Log.{Distinct}
use overacp.Registry.Agent.{
  AgentDescription, AgentEntry, AgentRegistry, RecentEntry, describe, find_recent, from_connected,
  from_recent, is_connected, list, list_connected, list_recent,
}

abbrev pub find_description : Uuid → List AgentDescription → Option AgentDescription
find_description agent_id [] = none
find_description agent_id (d ∷ ds) =
    if nat_beq d.agent_id agent_id then some d else find_description agent_id ds

abbrev or_description : Option AgentDescription → Option AgentDescription → Option AgentDescription
or_description none o = o
or_description (some d) o = some d

find_description-append :
    (agent_id : Uuid) (xs ys : List AgentDescription)
    → find_description agent_id (xs ++ ys)
      ≡ or_description (find_description agent_id xs) (find_description agent_id ys)
find_description-append agent_id [] ys = refl
find_description-append agent_id (d ∷ xs) ys =
    ground (arith, find_description-append agent_id xs ys)

abbrev recent_description : ℕ → Option RecentEntry → Option AgentDescription
unfolding from_recent
recent_description now none = none
recent_description now (some r) = some (from_recent r now)

find_description-list_recent :
    (is_live : Uuid → Bool) (agent_id : Uuid) (now : ℕ) (rs : List RecentEntry)
    → find_description agent_id (list_recent is_live now rs)
      ≡ (if is_live agent_id then none else recent_description now (find_recent agent_id rs))
unfolding list_recent find_recent from_recent
find_description-list_recent is_live agent_id now [] = ground arith
find_description-list_recent is_live agent_id now (r ∷ rs) =
    ground (arith, find_description-list_recent is_live agent_id now rs)

-- No agent stands twice in a listing.
abbrev pub ListsOnce : List AgentDescription → Type 0
ListsOnce [] = Unit
ListsOnce (d ∷ ds) = (find_description d.agent_id ds ≡ none) × ListsOnce ds

list_recent-ListsOnce :
    (is_live : Uuid → Bool) (now : ℕ) (rs : List RecentEntry)
    → Distinct rs
    → ListsOnce (list_recent is_live now rs)
unfolding list_recent from_recent
list_recent-ListsOnce is_live now [] d = tt
list_recent-ListsOnce is_live now (r ∷ rs) d = ground (
  arith,
  list_recent-ListsOnce is_live now rs d.1,
  find_description-list_recent is_live r.agent_id now rs,
)

module _ {Tx : Type 0} where
  abbrev connected_description : Uuid → ℕ → Option (AgentEntry Tx) → Option AgentDescription
  unfolding from_connected
  connected_description agent_id now none = none
  connected_description agent_id now (some entry) = some (from_connected agent_id entry now)

  find_description-list_connected :
      (agent_id : Uuid) (m : Map Uuid (AgentEntry Tx)) (now : ℕ)
      → find_description agent_id (list_connected m now)
        ≡ connected_description agent_id now (get agent_id m)
  unfolding list_connected get from_connected
  find_description-list_connected agent_id [] now = refl
  find_description-list_connected agent_id ((k, entry) ∷ m) now =
      ground (arith, find_description-list_connected agent_id m now)

  -- Looking an agent up in the listing gives the answer of `describe`, for every agent.
  pub find_description-list :
      (reg : AgentRegistry Tx) (agent_id : Uuid) (now : ℕ)
      → find_description agent_id (list reg now) ≡ describe reg agent_id now
  unfolding list describe
  find_description-list reg agent_id now = ground (
    arith,
    find_description-append agent_id (list_connected reg.connected now)
        (list_recent (is_connected reg) now reg.recent),
    find_description-list_connected agent_id reg.connected now,
    find_description-list_recent (is_connected reg) agent_id now reg.recent,
  )

  list_connected-ListsOnce :
      (m : Map Uuid (AgentEntry Tx)) (now : ℕ) (rest : List AgentDescription)
      → IsMap m
      → ListsOnce rest
      → ((k : Uuid) → is_some (get k m) ≡ true → find_description k rest ≡ none)
      → ListsOnce (list_connected m now ++ rest)
  unfolding list_connected get from_connected
  list_connected-ListsOnce [] now rest u once apart = once
  list_connected-ListsOnce ((k, entry) ∷ m) now rest u once apart = (
    ground (
      arith,
      find_description-append k (list_connected m now) rest,
      find_description-list_connected k m now,
      u.0,
      apart k,
    ),
    list_connected-ListsOnce m now rest u.1 once (λ j h. ground (arith, apart j)),
  )

  -- In a registry that keeps its invariant, `list` names every agent at most once.
  pub list-ListsOnce : (reg : AgentRegistry Tx) (now : ℕ) → IsValid reg → ListsOnce (list reg now)
  unfolding list
  list-ListsOnce reg now v =
      list_connected-ListsOnce reg.connected now (list_recent (is_connected reg) now reg.recent)
        v.keys (list_recent-ListsOnce (is_connected reg) now reg.recent v.distinct)
        (λ k h. ground (arith, find_description-list_recent (is_connected reg) k now reg.recent))
