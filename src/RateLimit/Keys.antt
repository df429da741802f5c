-- ===== src/RateLimit/Keys.antt =====
-- common/src/sentry_rate_limit.rs: the size of the table and of the keys.
use Prim.Native.String.{String}
use text.Mathlib.TextLemmas.{cons-append, nil-append}
use overacp.Prelude.Map.{Map, insert, remove, retain_values}
use overacp.Prelude.Texts.{chars, push_str}
use overacp.Prelude.{
  List, Option, [], ap, arith, nat_eq, none, refl, some, string_eq, suc, zero, ℕ, ◌-◌, ◌<◌, ◌∙◌,
  ◌∷◌, ◌≡◌, ◌≤◌,
}
use overacp.RateLimit.{
  Event, Exception, decide, event_key, fallback_key, should_send_inner, truncate_chars, younger,
}

-- Every entry of a table is younger than the horizon.
abbrev pub AllYoung : ℕ → ℕ → Map String ℕ → Type 0
AllYoung horizon now [] = Unit
AllYoung horizon now ((key, last) ∷ m) = (now - last < horizon) × AllYoung horizon now m

retain_values-AllYoung :
    (horizon now : ℕ) (m : Map String ℕ)
    → AllYoung horizon now (retain_values (younger now horizon) m)
unfolding retain_values
retain_values-AllYoung horizon now [] = tt
retain_values-AllYoung horizon now ((key, last) ∷ m) =
    ground (arith, retain_values-AllYoung horizon now m)

remove-AllYoung :
    (horizon now : ℕ) (key : String) (m : Map String ℕ)
    → AllYoung horizon now m
    → AllYoung horizon now (remove key m)
unfolding remove
remove-AllYoung horizon now key [] h = tt
remove-AllYoung horizon now key ((k, last) ∷ m) h =
    ground (arith, remove-AllYoung horizon now key m h.1)

decide-AllYoung :
    (horizon now width : ℕ) (key : String) (m : Map String ℕ) (here : Option ℕ)
    → 0 < horizon
    → AllYoung horizon now m
    → AllYoung horizon now (decide key now width m here).0
unfolding decide insert
decide-AllYoung horizon now width key m none positive h =
    (omega arith, remove-AllYoung horizon now key m h)
decide-AllYoung horizon now width key m (some last) positive h =
    ground (arith, remove-AllYoung horizon now key m h)

-- With a positive pruning horizon: after every check the table holds no entry as old as the pruning
-- horizon, whatever it held before.
pub should_send_inner-AllYoung :
    (table : Map String ℕ) (key : String) (now width horizon : ℕ)
    → 0 < horizon
    → AllYoung horizon now (should_send_inner table key now width horizon).0
unfolding should_send_inner
should_send_inner-AllYoung table key now width horizon positive =
    decide-AllYoung horizon now width key (retain_values (younger now horizon) table) _ positive
      (retain_values-AllYoung horizon now table)

-- The text without its first characters.
abbrev pub skip_chars : ℕ → String → String
skip_chars zero s = s
skip_chars (suc n) String.[] = String.[]
skip_chars (suc n) (String.◌∷◌ c s) = skip_chars n s

-- A truncated text is the front of the text, it has at most the given number of characters, and it is
-- the whole text if that is short enough.
pub truncate_chars_front :
    (n : ℕ) (s : String)
    → (push_str (truncate_chars n s) (skip_chars n s) ≡ s)
      × (chars (truncate_chars n s) ≤ n)
      × (chars s ≤ n → truncate_chars n s ≡ s)
unfolding truncate_chars
truncate_chars_front zero String.[] = (refl, omega arith, λ h. refl)
truncate_chars_front zero (String.◌∷◌ c s) = (nil-append _, omega arith, λ h. absurd (omega arith))
truncate_chars_front (suc n) String.[] = (refl, omega arith, λ h. refl)
truncate_chars_front (suc n) (String.◌∷◌ c s) =
    let (whole, short, same) = truncate_chars_front n s in
    (
      cons-append c (truncate_chars n s) (skip_chars n s) ∙ ap (String.◌∷◌ c) whole,
      omega arith,
      λ h. ap (String.◌∷◌ c) (same (omega arith)),
    )

-- Two events with the same logger and the same type of first exception, and no culprit, have one key,
-- whatever values, further exceptions and messages they carry.
pub event_key_ignores_value :
    (a b : Event) (x y : Exception) (xs ys : List Exception)
    → a.culprit ≡ none
    → b.culprit ≡ none
    → a.exceptions ≡ x ∷ xs
    → b.exceptions ≡ y ∷ ys
    → a.logger ≡ b.logger
    → x.ty ≡ y.ty
    → event_key a ≡ event_key b
unfolding event_key
event_key_ignores_value a b x y xs ys ca cb ea eb l t =
    rw (ca, cb, ea, eb, event_key, fallback_key) (rw (l, t) refl)
