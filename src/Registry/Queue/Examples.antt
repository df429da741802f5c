-- ===== src/Registry/Queue/Examples.antt =====
-- Tests of server/src/registry/queue.rs, and the theorems at concrete buffers.
use overacp.Prelude.Result.{err, ok}
use overacp.Prelude.{Uuid, [], arith, refl, take, ℕ, ◌++◌, ◌<◌, ◌∷◌, ◌≡◌, ◌≢◌, ◌≤◌, ◌⊎◌}
use overacp.Registry.Queue.Laws.{
  IsBounded, drain-push_all, push-IsBounded, push_all, push_behaviour,
}
use overacp.Registry.Queue.{MessageQueue, drain, full, len, new, push, slot_of}

abbrev one_frame : MessageQueue
unfolding new push
one_frame = (push (new 2) 7 "a").0

new-IsBounded : (capacity : ℕ) → IsBounded (new capacity)
unfolding new len
new-IsBounded capacity = record { within = λ agent_id. omega arith }

one_frame-IsBounded : IsBounded one_frame
unfolding new push
one_frame-IsBounded = push-IsBounded (new 2) 7 "a" (new-IsBounded 2)

-- `capacity_overflow_returns_full`, with a capacity of 2.
overflow : (push (push_all one_frame 7 ("b" ∷ [])) 7 "c").1 ≡ err (full 7 2)
unfolding push_all push one_frame
overflow = refl

-- `push_then_drain_preserves_order`
in_order : (drain (push_all (new 64) 7 ("a" ∷ "b" ∷ "c" ∷ [])) 7).1 ≡ "a" ∷ "b" ∷ "c" ∷ []
unfolding push_all drain new push
in_order = refl

-- `agents_are_isolated`
isolated : len (drain (push_all one_frame 9 ("z" ∷ [])) 7).0 9 ≡ 1
unfolding push_all drain len push one_frame
isolated = refl

push_behaviour_example :
    ((2 ≤ len one_frame 7)
      × ((push one_frame 7 "b").1 ≡ err (full 7 2))
      × ((other : Uuid) → slot_of (push one_frame 7 "b").0 other ≡ slot_of one_frame other))
    ⊎ ((len one_frame 7 < 2)
        × ((push one_frame 7 "b").1 ≡ ok tt)
        × (slot_of (push one_frame 7 "b").0 7 ≡ slot_of one_frame 7 ++ "b" ∷ [])
        × ((other : Uuid)
            → 7 ≢ other
            → slot_of (push one_frame 7 "b").0 other ≡ slot_of one_frame other))
unfolding new push
push_behaviour_example = push_behaviour one_frame 7 "b"

drain-push_all_example :
    (drain (push_all one_frame 7 ("b" ∷ "c" ∷ [])) 7).1 ≡ take 2 ("a" ∷ "b" ∷ "c" ∷ [])
unfolding new push
drain-push_all_example = (drain-push_all one_frame 7 ("b" ∷ "c" ∷ []) one_frame-IsBounded).0
