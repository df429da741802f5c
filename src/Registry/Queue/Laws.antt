-- ===== src/Registry/Queue/Laws.antt =====
-- server/src/registry/queue.rs: what pushes and drains do to the buffers of all agents.
use mathlib.Core.List.{append-nil, append_assoc}
use overacp.Prelude.Map.{get-insert, get-remove}
use overacp.Prelude.{
  Bool-cases, List, String, Uuid, [], arith, if◌then◌else◌, inl, inr, leb, length, length-append,
  nat_beq, nat_eq, take, take-append_full, take_short, ◌++◌, ◌<◌, ◌∷◌, ◌≡◌, ◌≢◌, ◌≤◌, ◌⊎◌,
}
use overacp.Registry.Queue.{MessageQueue, drain, err, full, len, ok, push, slot_of}

-- No buffer is longer than the capacity.
pub record IsBounded (q : MessageQueue) : Type 0 where
  pub within : (agent_id : Uuid) → len q agent_id ≤ q.per_agent_capacity

pub slot_of-push :
    (q : MessageQueue) (agent_id other : Uuid) (frame : String)
    → slot_of (push q agent_id frame).0 other ≡ (
        if nat_beq agent_id other
        then (if leb q.per_agent_capacity (length (slot_of q agent_id))
            then slot_of q agent_id
            else slot_of q agent_id ++ frame ∷ [])
        else slot_of q other)
unfolding push slot_of
slot_of-push q agent_id other frame = ground (
  arith,
  get-insert agent_id other (slot_of q agent_id) q.inner,
  get-insert agent_id other (slot_of q agent_id ++ frame ∷ []) q.inner,
)

pub slot_of-drain :
    (q : MessageQueue) (agent_id other : Uuid)
    → slot_of (drain q agent_id).0 other ≡ (if nat_beq agent_id other then [] else slot_of q other)
unfolding drain slot_of
slot_of-drain q agent_id other = ground (arith, get-remove agent_id other q.inner)

capacity-push :
    (q : MessageQueue) (agent_id : Uuid) (frame : String)
    → (push q agent_id frame).0.per_agent_capacity ≡ q.per_agent_capacity
unfolding push
capacity-push q agent_id frame = ground arith

result-push :
    (q : MessageQueue) (agent_id : Uuid) (frame : String)
    → (push q agent_id frame).1 ≡ (
        if leb q.per_agent_capacity (length (slot_of q agent_id))
        then err (full agent_id q.per_agent_capacity)
        else ok tt)
unfolding push
result-push q agent_id frame = ground arith

-- Every push keeps every buffer within the capacity.
pub push-IsBounded :
    (q : MessageQueue) (agent_id : Uuid) (frame : String)
    → IsBounded q
    → IsBounded (push q agent_id frame).0
unfolding len
push-IsBounded q agent_id frame h = record {
  within = λ other. ground (
    arith,
    slot_of-push q agent_id other frame,
    capacity-push q agent_id frame,
    length-append (slot_of q agent_id) (frame ∷ []),
    h.within other,
    h.within agent_id,
  );
}

-- A push is refused exactly when the buffer is full, and a refused push changes no buffer; an
-- accepted one puts the frame behind those of its own agent, and leaves all others as they were.
pub push_behaviour :
    (q : MessageQueue) (agent_id : Uuid) (frame : String)
    → ((q.per_agent_capacity ≤ len q agent_id)
        × ((push q agent_id frame).1 ≡ err (full agent_id q.per_agent_capacity))
        × ((other : Uuid) → slot_of (push q agent_id frame).0 other ≡ slot_of q other))
      ⊎ ((len q agent_id < q.per_agent_capacity)
          × ((push q agent_id frame).1 ≡ ok tt)
          × (slot_of (push q agent_id frame).0 agent_id ≡ slot_of q agent_id ++ frame ∷ [])
          × ((other : Uuid)
              → agent_id ≢ other
              → slot_of (push q agent_id frame).0 other ≡ slot_of q other))
unfolding len
push_behaviour q agent_id frame =
    elim (Bool-cases (leb q.per_agent_capacity (length (slot_of q agent_id)))) [
      | inl refused ↦ inl (
        ground arith,
        rw (result-push q agent_id frame) (rw refused),
        λ other. ground (arith, slot_of-push q agent_id other frame),
      )
      | inr accepted ↦ inr (
        ground arith,
        rw (result-push q agent_id frame) (rw accepted),
        ground (arith, slot_of-push q agent_id agent_id frame),
        λ other apart. ground (arith, slot_of-push q agent_id other frame),
      )
    ]

-- Pushes to one agent, in turn, their results dropped.
unfoldable pub push_all : MessageQueue → Uuid → List String → MessageQueue
push_all q agent_id [] = q
push_all q agent_id (frame ∷ frames) = push_all (push q agent_id frame).0 agent_id frames

pub slot_of-push_all :
    (q : MessageQueue) (agent_id : Uuid) (frames : List String)
    → length (slot_of q agent_id) ≤ q.per_agent_capacity
    → slot_of (push_all q agent_id frames) agent_id
      ≡ take q.per_agent_capacity (slot_of q agent_id ++ frames)
unfolding push_all len
slot_of-push_all q agent_id [] h =
    rw (append-nil, take_short q.per_agent_capacity (slot_of q agent_id) h)
slot_of-push_all q agent_id (frame ∷ frames) h = elim (push_behaviour q agent_id frame) [
  | inl (at_limit, _, same) ↦ ground (
    arith,
    slot_of-push_all (push q agent_id frame).0 agent_id frames,
    capacity-push q agent_id frame,
    same agent_id,
    take-append_full q.per_agent_capacity (slot_of q agent_id) frames,
    take-append_full q.per_agent_capacity (slot_of q agent_id) (frame ∷ frames),
  )
  | inr (below, _, added, _) ↦ ground (
    arith,
    slot_of-push_all (push q agent_id frame).0 agent_id frames,
    capacity-push q agent_id frame,
    length-append (slot_of q agent_id) (frame ∷ []),
    append_assoc (slot_of q agent_id) (frame ∷ []) frames,
  )
]

-- Where no buffer is over the capacity: what is pushed to one agent is drained once, behind what
-- was buffered, in the order of the pushes, cut at the capacity.
pub drain-push_all :
    (q : MessageQueue) (agent_id : Uuid) (frames : List String)
    → IsBounded q
    → ((drain (push_all q agent_id frames) agent_id).1
        ≡ take q.per_agent_capacity (slot_of q agent_id ++ frames))
      × (len (drain (push_all q agent_id frames) agent_id).0 agent_id ≡ 0)
unfolding len drain push_all
drain-push_all q agent_id frames h = (
  slot_of-push_all q agent_id frames (h.within agent_id),
  ground (arith, slot_of-drain (push_all q agent_id frames) agent_id agent_id),
)
