-- ===== src/RateLimit.antt =====
-- common/src/sentry_rate_limit.rs: at most one Sentry event per fingerprint and window. The table is
-- an argument in place of the static `LAST_SEEN`; instants and durations are nanoseconds.
pub mod Spec
pub mod Window
pub mod Keys
pub mod Examples
use Prim.Native.String.{String}
use overacp.Prelude.Map.{Map, get, insert, retain_values}
use overacp.Prelude.Texts.{push_str}
use overacp.Prelude.{
  Bool, List, Option, [], false, if◌then◌else◌, ltb, nat_eq, none, some, string_eq, suc, true, zero,
  ℕ, ◌-◌, ◌∷◌,
}

abbrev pub window : ℕ
window = 60_000_000_000

abbrev pub prune_after : ℕ
prune_after = 600_000_000_000

-- `now.saturating_duration_since(last) < bound`
abbrev pub younger : ℕ → ℕ → ℕ → Bool
younger now bound last = ltb (now - last) bound

unfoldable pub decide : String → ℕ → ℕ → Map String ℕ → Option ℕ → Map String ℕ × Bool
unfolding insert
decide key now width table none = (insert key now table, true)
decide key now width table (some last) =
    if younger now width last then (table, false) else (insert key now table, true)

unfoldable pub should_send_inner : Map String ℕ → String → ℕ → ℕ → ℕ → Map String ℕ × Bool
unfolding retain_values get decide
should_send_inner table key now width horizon =
    let kept = retain_values (younger now horizon) table in decide key now width kept (get key kept)

unfoldable pub should_send : Map String ℕ → String → ℕ → Map String ℕ × Bool
unfolding should_send_inner
should_send table key now = should_send_inner table key now window prune_after

abbrev pub message_key_cap : ℕ
message_key_cap = 64

-- `char_indices().nth(max_chars)`: the text up to that character, or all of it.
unfoldable pub truncate_chars : ℕ → String → String
truncate_chars zero s = String.[]
truncate_chars (suc n) String.[] = String.[]
truncate_chars (suc n) (String.◌∷◌ c s) = String.◌∷◌ c (truncate_chars n s)

-- The fields of `sentry::protocol::Event` that the fingerprint reads.
pub record Exception : Type 0 where
  pub ty : String
  pub value : Option String

pub record Event : Type 0 where
  pub culprit : Option String
  pub logger : Option String
  pub exceptions : List Exception
  pub message : Option String
  pub logentry : Option String

abbrev or_blank : Option String → String
or_blank none = ""
or_blank (some s) = s

abbrev or_else : Option String → Option String → Option String
or_else none o = o
or_else (some s) o = some s

-- The two fallbacks of `event_key`, for an event with no culprit.
unfoldable pub fallback_key : String → List Exception → Option String → Option String → String
unfolding truncate_chars
fallback_key logger (exc ∷ _) message logentry =
    push_str "exc:" (push_str logger (push_str ":" exc.ty))
fallback_key logger [] message logentry = push_str "msg:" (
    push_str logger
      (push_str ":" (truncate_chars message_key_cap (or_blank (or_else message logentry)))))

unfoldable pub event_key : Event → String
unfolding fallback_key
event_key event = elim event.culprit [
  | some culprit ↦ push_str "culprit:" culprit
  | none ↦ fallback_key (or_blank event.logger) event.exceptions event.message event.logentry
]

unfoldable pub before_send : Map String ℕ → Event → ℕ → Map String ℕ × Option Event
unfolding should_send event_key
before_send table event now =
    let (table', send) = should_send table (event_key event) now in
    (table', if send then some event else none)
