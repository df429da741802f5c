-- ===== src/RateLimit/Examples.antt =====
-- Tests of common/src/sentry_rate_limit.rs, and the theorems at concrete calls.
use overacp.Prelude.Map.{Map, get, insert, retain_values}
use overacp.Prelude.{
  List, Option, String, [], arith, false, nat_eq, none, refl, some, string_eq, true, ℕ, ◌*◌, ◌∷◌,
  ◌≡◌,
}
use overacp.RateLimit.Spec.{Ordered, allow_all, send_all, send_all-allow_all}
use overacp.RateLimit.{
  Event, Exception, decide, event_key, fallback_key, prune_after, should_send_inner, truncate_chars,
  window,
}

abbrev second : ℕ
second = 1_000_000_000

-- Two alike events in a minute, another kind of event between them, and one after the minute.
abbrev calls : List (String × ℕ)
calls =
    ("culprit:a", 1 * second)
    ∷ ("culprit:b", 2 * second)
    ∷ ("culprit:a", 31 * second)
    ∷ ("culprit:a", 62 * second)
    ∷ []

calls-Ordered : Ordered 0 calls
calls-Ordered = (omega arith, (omega arith, (omega arith, (omega arith, tt))))

answers : send_all [] window prune_after calls ≡ true ∷ true ∷ false ∷ true ∷ []
unfolding send_all should_send_inner decide retain_values get insert
answers = refl

send_all-allow_all_example :
    send_all [] window prune_after calls ≡ allow_all (λ key. none) window calls
send_all-allow_all_example = send_all-allow_all window prune_after calls (omega arith) calls-Ordered

abbrev old_table : Map String ℕ
old_table = ("culprit:b", 0) ∷ ("culprit:a", 700 * second) ∷ []

-- `truncate_chars_handles_multibyte_boundaries`, with three characters.
cut : truncate_chars 3 "abcd" ≡ "abc"
unfolding truncate_chars
cut = refl

abbrev exception : String → Exception
exception v = record { ty = "io::Error"; value = some v }

abbrev event : String → Option String → Event
event v m = record {
  culprit = none;
  logger = some "overacp";
  exceptions = exception v ∷ [];
  message = m;
  logentry = none;
}

keyed : event_key (event "timed out after 3s" none) ≡ "exc:overacp:io::Error"
unfolding event_key fallback_key
keyed = refl
