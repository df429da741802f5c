-- ===== src/RateLimit/Spec.antt =====
-- common/src/sentry_rate_limit.rs: the limiter with its pruned table against one that forgets nothing.
-- The reference limiter keeps the time of the last event sent for every key.
use mathlib.Core.Path.{ap₂}
use overacp.Prelude.Map.{
  IsMap, Map, get, get-insert, get-retain_values, insert, insert-IsMap, keep, retain_values,
  retain_values-IsMap,
}
use overacp.Prelude.{
  Bool, Bool-cases, List, Option, String, [], arith, false, if◌then◌else◌, inl, inr, nat_eq, none,
  refl, some, string_eq, sym, true, ℕ, ◌-◌, ◌==◌, ◌∷◌, ◌≡◌, ◌≤◌, ◌⊎◌,
}
use overacp.RateLimit.{decide, should_send_inner, younger}

abbrev pub Seen : Type 0
Seen = String → Option ℕ

abbrev pub too_soon : ℕ → ℕ → Option ℕ → Bool
too_soon now width none = false
too_soon now width (some last) = younger now width last

unfoldable pub remember : Seen → String → ℕ → Seen
remember seen key now k = if key == k then some now else seen k

unfoldable pub allow : Seen → String → ℕ → ℕ → Seen × Bool
unfolding remember
allow seen key now width =
    if too_soon now width (seen key) then (seen, false) else (remember seen key now, true)

-- The answers to a sequence of calls, each a key and a time.
unfoldable pub send_all : Map String ℕ → ℕ → ℕ → List (String × ℕ) → List Bool
unfolding should_send_inner
send_all table width horizon [] = []
send_all table width horizon ((key, now) ∷ calls) =
    let (table', send) = should_send_inner table key now width horizon in
    send ∷ send_all table' width horizon calls

unfoldable pub allow_all : Seen → ℕ → List (String × ℕ) → List Bool
unfolding allow
allow_all seen width [] = []
allow_all seen width ((key, now) ∷ calls) =
    let (seen', send) = allow seen key now width in send ∷ allow_all seen' width calls

-- The times never go back.
abbrev pub Ordered : ℕ → List (String × ℕ) → Type 0
Ordered from [] = Unit
Ordered from ((key, now) ∷ calls) = (from ≤ now) × Ordered now calls

-- The table holds what was seen, but for entries that are too old to matter.
abbrev Agrees : ℕ → ℕ → Option ℕ → Option ℕ → Type 0
Agrees now horizon here seen =
    (here ≡ seen) ⊎ ((last : ℕ) × (seen ≡ some last) × (here ≡ none) × (horizon ≤ now - last))

pub record Sim (horizon now : ℕ) (table : Map String ℕ) (seen : Seen) : Type 0 where
  pub keys : IsMap table
  pub agrees : (key : String) → Agrees now horizon (get key table) (seen key)

pruned-Agrees :
    (horizon from now : ℕ) (here seen : Option ℕ)
    → from ≤ now
    → Agrees from horizon here seen
    → Agrees now horizon (keep (younger now horizon) here) seen
pruned-Agrees horizon from now none seen h (inl e) = inl e
pruned-Agrees horizon from now (some last) seen h (inl e) =
    elim (Bool-cases (younger now horizon last)) [
      | inl young ↦ inl (rw young e)
      | inr old ↦ inr (last, sym e, rw old refl, ground arith)
    ]
pruned-Agrees horizon from now here seen h (inr (last, e, gone, old)) =
    inr (last, e, rw gone refl, omega arith)

pruned-Sim :
    (horizon from now : ℕ) (table : Map String ℕ) (seen : Seen)
    → from ≤ now
    → Sim horizon from table seen
    → Sim horizon now (retain_values (younger now horizon) table) seen
pruned-Sim horizon from now table seen later sim = record {
  keys = retain_values-IsMap (younger now horizon) table sim.keys;
  agrees = λ k.
      rw (get-retain_values (younger now horizon) k table sim.keys)
        (pruned-Agrees horizon from now (get k table) (seen k) later (sim.agrees k));
}

insert-Sim :
    (horizon now : ℕ) (key : String) (table : Map String ℕ) (seen : Seen)
    → Sim horizon now table seen
    → Sim horizon now (insert key now table) (remember seen key now)
unfolding remember
insert-Sim horizon now key table seen sim = record {
  keys = insert-IsMap key now table sim.keys;
  agrees = λ k. elim (Bool-cases (key == k)) [
    | inl same ↦ inl (rw (get-insert key k now table, same) refl)
    | inr other ↦ rw (get-insert key k now table, other) (sim.agrees k)
  ];
}

-- With a window no longer than the horizon, an old entry may be forgotten.
same_answer :
    (width horizon now : ℕ) (here seen : Option ℕ)
    → width ≤ horizon
    → Agrees now horizon here seen
    → too_soon now width here ≡ too_soon now width seen
same_answer width horizon now here seen fits (inl e) = rw e refl
same_answer width horizon now here seen fits (inr (last, e, gone, old)) =
    rw (e, gone) (ground arith)

decide-too_soon :
    (key : String) (now width : ℕ) (table : Map String ℕ) (here : Option ℕ)
    → decide key now width table here
      ≡ (if too_soon now width here then (table, false) else (insert key now table, true))
unfolding decide
decide-too_soon key now width table none = refl
decide-too_soon key now width table (some last) = refl

pub step-Sim :
    (width horizon from now : ℕ) (key : String) (table : Map String ℕ) (seen : Seen)
    → width ≤ horizon
    → from ≤ now
    → Sim horizon from table seen
    → let (table', send) = should_send_inner table key now width horizon in
      let (seen', allowed) = allow seen key now width in
      (send ≡ allowed) × Sim horizon now table' seen'
unfolding should_send_inner allow
step-Sim width horizon from now key table seen fits later sim =
    let kept = retain_values (younger now horizon) table in
    let sim' = pruned-Sim horizon from now table seen later sim in
    let same = same_answer width horizon now (get key kept) (seen key) fits (sim'.agrees key) in
    rw (decide-too_soon key now width kept (get key kept)) (
      rw same (elim (Bool-cases (too_soon now width (seen key))) [
        | inl soon ↦ rw soon (refl, sim')
        | inr due ↦ rw due (refl, insert-Sim horizon now key kept seen sim')
      ]))

pub send_all-Sim :
    (width horizon from : ℕ) (calls : List (String × ℕ)) (table : Map String ℕ) (seen : Seen)
    → width ≤ horizon
    → Ordered from calls
    → Sim horizon from table seen
    → send_all table width horizon calls ≡ allow_all seen width calls
unfolding send_all allow_all
send_all-Sim width horizon from [] table seen fits ordered sim = refl
send_all-Sim width horizon from ((key, now) ∷ calls) table seen fits ordered sim =
    let (same, sim') = step-Sim width horizon from now key table seen fits ordered.0 sim in
    ap₂ ◌∷◌ same (
      send_all-Sim width horizon now calls (should_send_inner table key now width horizon).0
        (allow seen key now width).0 fits ordered.1 sim')

-- Pruning does not change an answer: with a window no longer than the pruning horizon and times that
-- never go back, the limiter that starts from an empty table answers every sequence of calls as the
-- reference limiter does that keeps all keys for ever.
pub send_all-allow_all :
    (width horizon : ℕ) (calls : List (String × ℕ))
    → width ≤ horizon
    → Ordered 0 calls
    → send_all [] width horizon calls ≡ allow_all (λ key. none) width calls
unfolding get
send_all-allow_all width horizon calls fits ordered =
    send_all-Sim width horizon 0 calls [] (λ key. none) fits ordered
      (record { keys = tt; agrees = λ key. inl refl })
