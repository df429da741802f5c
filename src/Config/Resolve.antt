-- ===== src/Config/Resolve.antt =====
-- compute/src/config/mod.rs and compute/src/config/env.rs: a configuration whose references are
-- replaced by what the registered providers look up. A provider is the function it looks up with, and
-- the map of providers a function of the scheme. Texts are lists of UTF-8 bytes, but a literal of the
-- parser is the list of its characters.
use overacp.Config.Printed.{lacks, parse-plain}
use overacp.Config.{Segment, dollar, literal, parse, reference}
use overacp.Prelude.Result.{Result, err, ok, ok_or, ◌>>=◌}
use overacp.Prelude.{
  Bool, List, Option, [], ap, arith, false, if◌then◌else◌, ltb, nat_eq, none, refl, some, string_eq,
  true, ℕ, ◌%◌, ◌&&◌, ◌+◌, ◌++◌, ◌/◌, ◌==◌, ◌∷◌, ◌≡◌,
}

-- The message of an invalid value and the cause of a failed resolution are left out.
pub data ConfigError : Type 0 where
  missing_key : List ℕ → ConfigError
  invalid_value : List ℕ → ConfigError
  unknown_provider : List ℕ → ConfigError
  resolution : List ℕ → ConfigError
  bad_reference : List ℕ → ConfigError

abbrev pub Lookup : Type 0
Lookup = List ℕ → Option (List ℕ) → Result ConfigError (List ℕ)

abbrev pub ConfigResolver : Type 0
ConfigResolver = List ℕ → Option Lookup

abbrev pub no_providers : ConfigResolver
no_providers scheme = none

unfoldable pub same_text : List ℕ → List ℕ → Bool
same_text [] [] = true
same_text [] (b ∷ m) = false
same_text (a ∷ l) [] = false
same_text (a ∷ l) (b ∷ m) = a == b && same_text l m

abbrev pub register : List ℕ → Lookup → ConfigResolver → ConfigResolver
register scheme lookup r = λ s. if same_text scheme s then some lookup else r s

-- `env:`
abbrev env_prefix : List ℕ
env_prefix = 101 ∷ 110 ∷ 118 ∷ 58 ∷ []

-- `var` is the environment of the process.
abbrev pub env_lookup : (List ℕ → Option (List ℕ)) → Lookup
env_lookup var path (some key) = err (invalid_value path)
env_lookup var path none = ok_or (var path) (missing_key (env_prefix ++ path))

abbrev pub RawConfig : Type 0
RawConfig = List (List ℕ × List ℕ)

pub record ResolvedConfig : Type 0 where
  pub resolved : RawConfig
  pub original : RawConfig

-- The bytes of a character below 2048; those that the parser makes of a byte are below 256.
abbrev pub utf8 : ℕ → List ℕ
utf8 c = if ltb c 128 then c ∷ [] else (192 + c / 64) ∷ (128 + c % 64) ∷ []

unfoldable pub encode_utf8 : List ℕ → List ℕ
encode_utf8 [] = []
encode_utf8 (c ∷ cs) = utf8 c ++ encode_utf8 cs

abbrev segment_text : ConfigResolver → Segment → Result ConfigError (List ℕ)
segment_text r (literal s) = ok (encode_utf8 s)
segment_text r (reference scheme path key) =
    ok_or (r scheme) (unknown_provider scheme) >>= λ lookup. lookup path key

unfoldable pub push_segments : ConfigResolver → List Segment → List ℕ → Result ConfigError (List ℕ)
push_segments r [] out = ok out
push_segments r (seg ∷ segs) out = segment_text r seg >>= λ v. push_segments r segs (out ++ v)

unfoldable pub resolve_value : ConfigResolver → List ℕ → Result ConfigError (List ℕ)
resolve_value r value =
    ok_or (parse value) (bad_reference value) >>= λ segs. push_segments r segs []

-- The loop over the entries, in the order of their keys.
unfoldable pub resolve_all : ConfigResolver → RawConfig → Result ConfigError RawConfig
resolve_all r [] = ok []
resolve_all r ((k, v) ∷ raw) =
    resolve_value r v >>= λ w. resolve_all r raw >>= λ rest. ok ((k, w) ∷ rest)

abbrev get : List ℕ → RawConfig → Option (List ℕ)
get key [] = none
get key ((k, v) ∷ entries) = let rest = get key entries in if same_text key k then some v else rest

abbrev require : List ℕ → ResolvedConfig → Result ConfigError (List ℕ)
require key c = ok_or (get key c.resolved) (missing_key key)

unfoldable pub resolve : ConfigResolver → RawConfig → Result ConfigError ResolvedConfig
resolve r raw =
    resolve_all r raw >>= λ resolved. ok (record { resolved = resolved; original = raw })

abbrev is_ascii : List ℕ → Bool
is_ascii [] = true
is_ascii (b ∷ bs) = ltb b 128 && is_ascii bs

abbrev is_plain : RawConfig → Bool
is_plain [] = true
is_plain ((k, v) ∷ raw) = (lacks dollar v && is_ascii v) && is_plain raw

encode_utf8-ascii : (v : List ℕ) → is_ascii v ≡ true → encode_utf8 v ≡ v
unfolding encode_utf8
encode_utf8-ascii [] h = refl
encode_utf8-ascii (c ∷ v) h =
    let small : ltb c 128 ≡ true = ground arith in
    rw small (ap (λ l. c ∷ l) (encode_utf8-ascii v (ground arith)))

resolve_value-plain :
    (r : ConfigResolver) (v : List ℕ)
    → lacks dollar v ≡ true
    → is_ascii v ≡ true
    → resolve_value r v ≡ ok v
unfolding resolve_value push_segments
resolve_value-plain r [] h k = rw (parse-plain [] refl) refl
resolve_value-plain r (c ∷ v) h k = rw (parse-plain (c ∷ v) h) (ap ok (encode_utf8-ascii (c ∷ v) k))

resolve_all-plain :
    (r : ConfigResolver) (raw : RawConfig) → is_plain raw ≡ true → resolve_all r raw ≡ ok raw
unfolding resolve_all
resolve_all-plain r [] h = refl
resolve_all-plain r ((k, v) ∷ raw) h =
    rw (resolve_value-plain r v (ground arith) (ground arith))
      (rw (resolve_all-plain r raw (ground arith)) refl)

-- A configuration of ASCII values without a dollar sign resolves to itself, whatever providers are
-- registered.
resolve-plain :
    (r : ConfigResolver) (raw : RawConfig)
    → is_plain raw ≡ true
    → resolve r raw ≡ ok (record { resolved = raw; original = raw })
unfolding resolve
resolve-plain r raw h = rw (resolve_all-plain r raw h) refl
