-- ===== src/Routes/Examples.antt =====
-- Tests of server/src/routes.rs and server/src/api/tokens.rs, and the theorems at a concrete token.
use overacp.Auth.{
  Claims, Jwt, StaticJwtAuthenticator, agent, is_admin, is_agent, mint, role_agent, validate,
}
use overacp.Prelude.Int.{leb_ℤ, neg_part, negsuc, pos, pos_part, ℤ, ◌≤ℤ◌}
use overacp.Prelude.Result.{Result, err, ok}
use overacp.Prelude.{
  Bool, Option, String, Uuid, arith, false, if◌then◌else◌, nat_beq, nat_beq_iff, nat_eq, none, refl,
  same_iff, some, string_eq, subst, sym, true, ◌&&◌, ◌==◌, ◌↔◌, ◌≡◌, ◌≢◌,
}
use overacp.Routes.Gates.{MayCall, Presents, authorize_tunnel_iff, gates_admit}
use overacp.Routes.Tokens.{RoundTrips, minted_token_scope}
use overacp.Routes.{
  MintRequest, MintResponse, admitted, agent_mismatch, authorize_tunnel, bearer_of, mint_token,
  path_agent_id, refused, require_admin, require_agent_or_admin,
}

abbrev auth : StaticJwtAuthenticator
auth = record { signing_key = "k"; issuer = "overacp" }

abbrev claims : Claims
unfolding agent
claims = agent 7 (some 3) (pos 120) "overacp" (pos 1000)

abbrev same_int : ℤ → ℤ → Bool
same_int a b = nat_beq (pos_part a) (pos_part b) && nat_beq (neg_part a) (neg_part b)

abbrev same_user : Option Uuid → Bool
same_user none = false
same_user (some u) = nat_beq u 3

abbrev same_claims : Claims → Bool
same_claims c =
    nat_beq c.sub 7
    && (c.role == role_agent)
    && same_user c.user
    && same_int c.exp (pos 1120)
    && (c.iss == "overacp")

-- A codec of one token, of which it knows the claims, the secret, the issuer and the expiry.
abbrev jwt : Jwt
jwt = record {
  encode = λ c key. if same_claims c && (key == "k") then ok "t" else err "no key";
  decode = λ key iss now token.
      if (token == "t") && (key == "k") && (iss == "overacp") && leb_ℤ now (pos 1120)
      then ok claims
      else err "InvalidToken";
}

same_int-eq : (a : ℤ) → same_int a (pos 1120) ≡ true → a ≡ pos 1120
same_int-eq (pos n) h = ground arith
same_int-eq (negsuc n) h = absurd (ground arith)

same_user-eq : (u : Option Uuid) → same_user u ≡ true → u ≡ some 3
same_user-eq none h = absurd (ground arith)
same_user-eq (some u) h = ground arith

and-both : (a b : Bool) → (a && b) ≡ true → (a ≡ true) × (b ≡ true)
and-both true b h = (refl, h)
and-both false b h = absurd (ground arith)

same_claims-eq : (c : Claims) → same_claims c ≡ true → c ≡ claims
unfolding agent
same_claims-eq c h =
    let (h1, f) = and-both _ (c.iss == "overacp") h in
    let (h2, e) = and-both _ (same_int c.exp (pos 1120)) h1 in
    let (h3, d) = and-both _ (same_user c.user) h2 in
    let (a, b) = and-both (nat_beq c.sub 7) (c.role == role_agent) h3 in
    let p = (nat_beq_iff c.sub 7).0 a in
    let q = (same_iff c.role "agent").0 b in
    let r = same_user-eq c.user d in
    let t = same_int-eq c.exp e in
    let u = (same_iff c.iss "overacp").0 f in
    λ i. record { sub = p i; role = q i; user = r i; exp = t i; iss = u i }

encode-ok :
    (b : Bool) (token : String)
    → Path (Result String String) (if b then ok "t" else err "no key") (ok token)
    → (b ≡ true) × ("t" ≡ token)
encode-ok true token h = (refl, ground arith)
encode-ok false token h = absurd (ground arith)

and_true : (b : Bool) → (b && true) ≡ true → b ≡ true
and_true true h = refl
and_true false h = h

in_time : (now : ℤ) → now ≤ℤ pos 1120 → jwt.decode "k" "overacp" now "t" ≡ ok claims
in_time now h = ground arith

decodes :
    (c : Claims) (token : String) (now : ℤ)
    → claims ≡ c
    → "t" ≡ token
    → now ≤ℤ c.exp
    → jwt.decode "k" c.iss now token ≡ ok c
unfolding claims
decodes c token now e t =
    subst (λ c. now ≤ℤ c.exp → jwt.decode "k" c.iss now token ≡ ok c) e
      (λ before. subst (λ s. jwt.decode "k" "overacp" now s ≡ ok claims) t (in_time now before))

jwt-RoundTrips : RoundTrips jwt "k"
jwt-RoundTrips c token now h before =
    let (listed, same) = encode-ok (same_claims c && true) token h in
    decodes c token now (sym (same_claims-eq c (and_true _ listed))) same before

abbrev req : MintRequest
req = record { agent_id = 7; user = some 3; ttl_secs = some (pos 120) }

abbrev resp : MintResponse
resp = record { token = "t"; claims = claims }

minted_ok : mint_token jwt auth (pos 1000) req ≡ ok resp
unfolding mint_token mint agent
minted_ok = refl

gates_admit_example :
    ((require_agent_or_admin jwt auth (pos 1100) (λ s. some 7) (some "Bearer t") "/agents/7/stream"
        ≡ admitted)
      ↔ ((c : Claims) × Presents jwt auth (pos 1100) (some "Bearer t") c
          × MayCall (path_agent_id (λ s. some 7) "/agents/7/stream") c))
    × ((require_admin jwt auth (pos 1100) (some "Bearer t") ≡ admitted)
        ↔ ((c : Claims) × Presents jwt auth (pos 1100) (some "Bearer t") c × (is_admin c ≡ true)))
gates_admit_example =
    gates_admit jwt auth (pos 1100) (λ s. some 7) (some "Bearer t") "/agents/7/stream"

authorize_tunnel_iff_example : (authorize_tunnel jwt auth (pos 1100) 7 (some "t") ≡ ok claims) ↔ (
    (t : String) × (some "t" ≡ some t)
    × (validate jwt auth (pos 1100) t ≡ ok claims)
    × (is_agent claims ≡ true)
    × (claims.sub ≡ 7))
authorize_tunnel_iff_example = authorize_tunnel_iff jwt auth (pos 1100) 7 (some "t") claims

minted_token_scope_example :
    (authorize_tunnel jwt auth (pos 1100) 7 (some "t") ≡ ok claims)
    × ((other : Uuid)
        → other ≢ 7
        → authorize_tunnel jwt auth (pos 1100) other (some "t") ≡ err agent_mismatch)
    × ((header : Option String)
        → bearer_of header ≡ some "t"
        → require_admin jwt auth (pos 1100) header ≡ refused 403 "admin role required")
    × ((parse_str : String → Option Uuid) (header : Option String) (path : String)
        → bearer_of header ≡ some "t"
        → path_agent_id parse_str path ≡ some 7
        → require_agent_or_admin jwt auth (pos 1100) parse_str header path ≡ admitted)
unfolding claims agent
minted_token_scope_example =
    minted_token_scope jwt auth (pos 1000) req resp (pos 1100) jwt-RoundTrips (omega arith)
      minted_ok (omega arith)

-- The longest lifetime there is.
overflown :
    (agent 7 none (pos 9223372036854775807) "overacp" (pos 1000)).exp ≡ negsuc 9223372036854774808
unfolding agent
overflown = refl
