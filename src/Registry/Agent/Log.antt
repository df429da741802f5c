-- ===== src/Registry/Agent/Log.antt =====
-- server/src/registry/agent.rs: the log of recent agents, which stays bounded and without repeats.
-- No agent stands twice in the log.
use overacp.Prelude.{
  Bool-cases, List, Option, Uuid, [], arith, if◌then◌else◌, inl, inr, length, length-append,
  length-retain-le, nat_beq, none, refl, retain, some, ◌++◌, ◌-◌, ◌∷◌, ◌≡◌, ◌≢◌, ◌≤◌, ◌⊎◌,
}
use overacp.Registry.Agent.{
  RecentEntry, find_recent, other_than, pop_front, push_recent, recent_capacity,
}

abbrev pub Distinct : List RecentEntry → Type 0
Distinct [] = Unit
Distinct (r ∷ rs) = (find_recent r.agent_id rs ≡ none) × Distinct rs

abbrev or_entry : Option RecentEntry → Option RecentEntry → Option RecentEntry
or_entry none o = o
or_entry (some r) o = some r

pub find_recent-retain :
    (agent_id other : Uuid) (rs : List RecentEntry)
    → find_recent other (retain (other_than agent_id) rs)
      ≡ (if nat_beq agent_id other then none else find_recent other rs)
unfolding find_recent
find_recent-retain agent_id other [] = ground arith
find_recent-retain agent_id other (r ∷ rs) = ground (arith, find_recent-retain agent_id other rs)

find_recent-append :
    (other : Uuid) (rs : List RecentEntry) (r : RecentEntry)
    → find_recent other (rs ++ r ∷ [])
      ≡ or_entry (find_recent other rs) (if nat_beq r.agent_id other then some r else none)
unfolding find_recent
find_recent-append other [] r = ground arith
find_recent-append other (x ∷ rs) r = ground (arith, find_recent-append other rs r)

find_recent-pop_front :
    (other : Uuid) (rs : List RecentEntry)
    → Distinct rs
    → (find_recent other (pop_front rs) ≡ find_recent other rs)
      ⊎ (find_recent other (pop_front rs) ≡ none)
unfolding find_recent
find_recent-pop_front other [] d = inl refl
find_recent-pop_front other (r ∷ rs) d = ground (arith, d.0)

pub Distinct-retain :
    (agent_id : Uuid) (rs : List RecentEntry)
    → Distinct rs
    → Distinct (retain (other_than agent_id) rs)
Distinct-retain agent_id [] d = tt
Distinct-retain agent_id (r ∷ rs) d =
    ground (arith, Distinct-retain agent_id rs d.1, find_recent-retain agent_id r.agent_id rs)

Distinct-append :
    (rs : List RecentEntry) (r : RecentEntry)
    → Distinct rs
    → find_recent r.agent_id rs ≡ none
    → Distinct (rs ++ r ∷ [])
unfolding find_recent
Distinct-append [] r d h = (refl, tt)
Distinct-append (x ∷ rs) r d h =
    ground (arith, Distinct-append rs r d.1, find_recent-append x.agent_id rs r)

Distinct-pop_front : (rs : List RecentEntry) → Distinct rs → Distinct (pop_front rs)
Distinct-pop_front [] d = tt
Distinct-pop_front (r ∷ rs) d = d.1

pub Distinct-push_recent :
    (rs : List RecentEntry) (r : RecentEntry) → Distinct rs → Distinct (push_recent rs r)
unfolding push_recent
Distinct-push_recent rs r d =
    let rest = retain (other_than r.agent_id) rs in
    let kept = Distinct-retain r.agent_id rs d in
    let gone = find_recent-retain r.agent_id r.agent_id rs in
    elim (Bool-cases (nat_beq (length rest) recent_capacity)) [
      | inl at_limit ↦ rw at_limit (
          Distinct-append (pop_front rest) r (Distinct-pop_front rest kept)
            (ground (arith, find_recent-pop_front r.agent_id rest kept, gone)))
      | inr below ↦ rw below (Distinct-append rest r kept (ground (arith, gone)))
    ]

length-pop_front : (rs : List RecentEntry) → length (pop_front rs) ≡ length rs - 1
length-pop_front [] = omega arith
length-pop_front (r ∷ rs) = omega arith

pub length-push_recent-le :
    (rs : List RecentEntry) (r : RecentEntry)
    → length rs ≤ recent_capacity
    → length (push_recent rs r) ≤ recent_capacity
unfolding push_recent
length-push_recent-le rs r h =
    let rest = retain (other_than r.agent_id) rs in
    ground (
      arith,
      length-retain-le (other_than r.agent_id) rs,
      length-append rest (r ∷ []),
      length-append (pop_front rest) (r ∷ []),
      length-pop_front rest,
    )

-- The log after a disconnect: the agent that left is in it, and it gains nobody else.
pub find_recent-push_recent_self :
    (rs : List RecentEntry) (r : RecentEntry)
    → Distinct rs
    → find_recent r.agent_id (push_recent rs r) ≡ some r
unfolding push_recent
find_recent-push_recent_self rs r d =
    let rest = retain (other_than r.agent_id) rs in
    ground (
      arith,
      find_recent-append r.agent_id rest r,
      find_recent-append r.agent_id (pop_front rest) r,
      find_recent-retain r.agent_id r.agent_id rs,
      find_recent-pop_front r.agent_id rest (Distinct-retain r.agent_id rs d),
    )

pub find_recent-push_recent_other :
    (rs : List RecentEntry) (r : RecentEntry) (other : Uuid)
    → Distinct rs
    → r.agent_id ≢ other
    → (find_recent other (push_recent rs r) ≡ find_recent other rs)
      ⊎ (find_recent other (push_recent rs r) ≡ none)
unfolding push_recent
find_recent-push_recent_other rs r other d apart =
    let rest = retain (other_than r.agent_id) rs in
    ground (
      arith,
      find_recent-append other rest r,
      find_recent-append other (pop_front rest) r,
      find_recent-retain r.agent_id other rs,
      find_recent-pop_front other rest (Distinct-retain r.agent_id rs d),
    )
