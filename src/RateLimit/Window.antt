-- ===== src/RateLimit/Window.antt =====
-- common/src/sentry_rate_limit.rs: one event of a kind per window.
use text.Mathlib.TextEquality.{eq_iff}
use overacp.Prelude.Map.{IsMap, Map, get}
use overacp.Prelude.{
  Bool, Bool-cases, List, String, [], arith, beq_refl, false, if◌then◌else◌, inl, inr, lt→ltb,
  nat_eq, refl, some, string_eq, suc, sym, true, ℕ, ◌&&◌, ◌-◌, ◌<◌, ◌==◌, ◌∙◌, ◌∷◌, ◌≡◌, ◌≤◌,
}
use overacp.RateLimit.Spec.{
  Ordered, Seen, Sim, allow, allow_all, remember, send_all, send_all-Sim, step-Sim, too_soon,
}
use overacp.RateLimit.{should_send_inner}

-- How many of the calls with a key were answered by a send.
unfoldable pub sends_of : String → List (String × ℕ) → List Bool → ℕ
sends_of key ((k, now) ∷ calls) (send ∷ answers) =
    let rest = sends_of key calls answers in if send && (k == key) then suc rest else rest
sends_of key _ _ = 0

-- Every call comes less than `width` after `last`.
abbrev pub Within : ℕ → ℕ → List (String × ℕ) → Type 0
Within last width [] = Unit
Within last width ((k, now) ∷ calls) = (now - last < width) × Within last width calls

silent_step :
    (key k : String) (last now width : ℕ) (seen : Seen)
    → seen key ≡ some last
    → now - last < width
    → let (seen', allowed) = allow seen k now width in
      (seen' key ≡ some last) × ((allowed && (k == key)) ≡ false)
unfolding allow remember
silent_step key k last now width seen e h = elim (Bool-cases (k == key)) [
  | inl same ↦
      let same_key : k ≡ key = (eq_iff k key).0 same in
      let soon : too_soon now width (seen k) ≡ true = rw (same_key, e) (lt→ltb _ _ h) in
      rw soon (e, refl)
  | inr other ↦ elim (Bool-cases (too_soon now width (seen k))) [
    | inl soon ↦ rw soon (e, refl)
    | inr due ↦ rw (due, other) (e, refl)
  ]
]

allow_all-silent :
    (key : String) (last width : ℕ) (seen : Seen) (calls : List (String × ℕ))
    → seen key ≡ some last
    → Within last width calls
    → sends_of key calls (allow_all seen width calls) ≡ 0
unfolding allow_all sends_of
allow_all-silent key last width seen [] e h = refl
allow_all-silent key last width seen ((k, now) ∷ calls) e h =
    let (e', quiet) = silent_step key k last now width seen e h.0 in
    rw quiet (allow_all-silent key last width (allow seen k now width).0 calls e' h.1)

seen_after :
    (key : String) (now width : ℕ) (seen : Seen)
    → (allow seen key now width).1 ≡ true
    → (allow seen key now width).0 key ≡ some now
unfolding allow remember
seen_after key now width seen sent = elim (Bool-cases (too_soon now width (seen key))) [
  | inl soon ↦ cc (rw soon at sent)
  | inr due ↦ rw (due, beq_refl key) refl
]

table-Sim :
    (horizon now : ℕ) (table : Map String ℕ)
    → IsMap table
    → Sim horizon now table (λ k. get k table)
table-Sim horizon now table u = record { keys = u; agrees = λ k. inl refl }

-- Once an event is sent, no other with its key is sent before the window has passed, whatever calls
-- come between them, if the times do not go back and the pruning horizon is no shorter.
pub one_send_per_window :
    (key : String) (sent_at width horizon : ℕ) (table : Map String ℕ) (calls : List (String × ℕ))
    → width ≤ horizon
    → IsMap table
    → (should_send_inner table key sent_at width horizon).1 ≡ true
    → Ordered sent_at calls
    → Within sent_at width calls
    → sends_of key calls
        (send_all (should_send_inner table key sent_at width horizon).0 width horizon calls)
      ≡ 0
one_send_per_window key sent_at width horizon table calls fits u sent ordered h =
    let (same, sim) =
      step-Sim width horizon sent_at sent_at key table (λ k. get k table) fits (omega arith)
        (table-Sim horizon sent_at table u) in
    rw (send_all-Sim width horizon sent_at calls _ _ fits ordered sim) (
      allow_all-silent key sent_at width _ calls
        (seen_after key sent_at width (λ k. get k table) (sym same ∙ sent)) h)
