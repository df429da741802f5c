-- ===== src/Config/Examples.antt =====
-- Tests of the configuration references, and the example of their round trip.
use overacp.Config.Printed.{parse-print_all, print_all, printable}
use overacp.Config.Resolve.{
  ConfigResolver, encode_utf8, env_lookup, no_providers, push_segments, register, resolve,
  resolve_all, resolve_value, same_text, unknown_provider,
}
use overacp.Config.{Segment, literal, parse, parse_ref_body, reference, scan, split_colon, step}
use overacp.Prelude.Result.{err, ok}
use overacp.Prelude.{List, [], none, refl, some, ◌∷◌, ◌≡◌}

-- `a$`, then the variable `b` of the scheme `e`, then a reference with a key.
abbrev mixed : List Segment
mixed =
    literal (97 ∷ 36 ∷ [])
    ∷ reference (101 ∷ []) (98 ∷ []) none
    ∷ reference (102 ∷ []) (99 ∷ []) (some (100 ∷ []))
    ∷ []

parse-print_all_example : parse (print_all mixed) ≡ some mixed
unfolding printable
parse-print_all_example = parse-print_all mixed refl

-- The two bytes of é become two characters.
test_two_bytes : parse (195 ∷ 169 ∷ []) ≡ some (literal (195 ∷ 169 ∷ []) ∷ [])
unfolding parse scan step
test_two_bytes = refl

test_unmatched : parse (36 ∷ 123 ∷ 101 ∷ 58 ∷ 98 ∷ []) ≡ none
unfolding parse scan step
test_unmatched = refl

test_empty_scheme : parse (36 ∷ 123 ∷ 58 ∷ 98 ∷ 125 ∷ []) ≡ none
unfolding parse scan step parse_ref_body split_colon
test_empty_scheme = refl

-- The scheme `e` over an environment in which every variable is `x`.
abbrev resolver : ConfigResolver
resolver = register (101 ∷ []) (env_lookup (λ path. some (120 ∷ []))) no_providers

-- `${e:b}` and a scheme that nobody registered.
test_resolved :
    resolve resolver ((107 ∷ [], 36 ∷ 123 ∷ 101 ∷ 58 ∷ 98 ∷ 125 ∷ []) ∷ [])
    ≡ ok (record {
      resolved = (107 ∷ [], 120 ∷ []) ∷ [];
      original = (107 ∷ [], 36 ∷ 123 ∷ 101 ∷ 58 ∷ 98 ∷ 125 ∷ []) ∷ [];
    })
unfolding resolve resolve_all resolve_value push_segments same_text parse scan step parse_ref_body
    split_colon
test_resolved = refl

test_unknown :
    resolve resolver ((107 ∷ [], 36 ∷ 123 ∷ 102 ∷ 58 ∷ 98 ∷ 125 ∷ []) ∷ [])
    ≡ err (unknown_provider (102 ∷ []))
unfolding resolve resolve_all resolve_value push_segments same_text parse scan step parse_ref_body
    split_colon
test_unknown = refl

-- The two bytes of é in a literal come out as four.
test_garbled : resolve_value resolver (195 ∷ 169 ∷ []) ≡ ok (195 ∷ 131 ∷ 194 ∷ 169 ∷ [])
unfolding resolve_value push_segments encode_utf8 parse scan step
test_garbled = refl
