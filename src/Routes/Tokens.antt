-- ===== src/Routes/Tokens.antt =====
-- server/src/api/tokens.rs with server/src/routes.rs: what a minted token is good for.
-- What `jsonwebtoken` documents: a token that was encoded with a secret decodes with it to the
-- encoded claims, for their issuer and up to their time of expiry.
use overacp.Auth.{
  Claims, Jwt, StaticJwtAuthenticator, agent, check_role, invalid, is_admin, is_agent, mint,
  role_admin, role_agent, validate,
}
use overacp.Prelude.Int.{
  IsI64, add_i64, i64_end, leb_ℤ, negsuc, pos, u64_end, wrap_i64, wrap_i64-id, wrap_i64-over, ℤ,
  ◌+ℤ◌, ◌≤ℤ◌,
}
use overacp.Prelude.Result.{Result-cases, err, ok}
use overacp.Prelude.Texts.{push_str}
use overacp.Prelude.{
  Bool-cases, Option, String, Uuid, ap, arith, false, if◌then◌else◌, inl, inr, nat_eq, refl, some,
  string_eq, subst, sym, true, ℕ, ◌+◌, ◌-◌, ◌<◌, ◌==◌, ◌||◌, ◌∙◌, ◌≡◌, ◌≢◌, ◌≤◌,
}
use overacp.Routes.{
  MintRequest, MintResponse, admitted, agent_mismatch, authorize_tunnel, bearer_of, mint_token,
  path_agent_id, refused, request_ttl, require_admin, require_agent_or_admin, validate_bearer,
}

abbrev pub RoundTrips : Jwt → String → Type 0
RoundTrips jwt key =
    (claims : Claims) (token : String) (now : ℤ)
    → jwt.encode claims key ≡ ok token
    → now ≤ℤ claims.exp
    → jwt.decode key claims.iss now token ≡ ok claims

agent_role-check_role : (claims : Claims) → claims.role ≡ role_agent → check_role claims ≡ ok claims
agent_role-check_role claims h =
    subst
      (λ r.
        (if r == role_admin || r == role_agent
          then ok claims
          else err (invalid (push_str "invalid role: " r)))
        ≡ ok claims)
      (sym h) refl

not_admin : (claims : Claims) → claims.role ≡ role_agent → is_admin claims ≡ false
unfolding is_admin
not_admin claims h = rw h

an_agent : (claims : Claims) → claims.role ≡ role_agent → is_agent claims ≡ true
unfolding is_agent
an_agent claims h = rw h

module _ (jwt : Jwt) (auth : StaticJwtAuthenticator) where
  mint_token-ok :
      (now : ℤ) (req : MintRequest) (r : MintResponse)
      → mint_token jwt auth now req ≡ ok r
      → (leb_ℤ (request_ttl req) (pos 0) ≡ false)
        × (r.claims ≡ agent req.agent_id req.user (request_ttl req) auth.issuer now)
        × (jwt.encode r.claims auth.signing_key ≡ ok r.token)
  unfolding mint_token mint
  mint_token-ok now req r h = elim (Bool-cases (leb_ℤ (request_ttl req) (pos 0))) [
    | inl e ↦ absurd (ground arith)
    | inr e ↦
        elim (Result-cases (
          jwt.encode (agent req.agent_id req.user (request_ttl req) auth.issuer now)
            auth.signing_key)) [
              | inl (t, m) ↦ (e, ground arith, ground arith)
              | inr (x, m) ↦ absurd (ground arith)
            ]
  ]

  pos_sum : (t n : ℕ) → (pos t +ℤ pos n) ≡ pos (t + n)
  pos_sum t n = ground arith

  later : (now ttl : ℤ) → leb_ℤ ttl (pos 0) ≡ false → (now +ℤ pos 1) ≤ℤ (now +ℤ ttl)
  later now ttl h = ground arith

  minted-exp :
      (now : ℤ) (req : MintRequest) (r : MintResponse)
      → IsI64 (now +ℤ request_ttl req)
      → mint_token jwt auth now req ≡ ok r
      → r.claims.exp ≡ now +ℤ request_ttl req
  unfolding agent
  minted-exp now req r small h =
      ap (λ c. c.exp) (mint_token-ok now req r h).1 ∙ wrap_i64-id (now +ℤ request_ttl req) small

  -- A token that is minted carries the claims of the request's agent and user, under the
  -- authenticator's issuer, and expires at least one second after it is minted, at the lifetime that
  -- was asked for or at 30 days, if that time is within an i64.
  pub mint_token_claims :
      (now : ℤ) (req : MintRequest) (r : MintResponse)
      → IsI64 (now +ℤ request_ttl req)
      → mint_token jwt auth now req ≡ ok r
      → (r.claims.sub ≡ req.agent_id)
        × (is_agent r.claims ≡ true)
        × (r.claims.user ≡ req.user)
        × (r.claims.iss ≡ auth.issuer)
        × (r.claims.exp ≡ now +ℤ request_ttl req)
        × ((now +ℤ pos 1) ≤ℤ r.claims.exp)
  unfolding agent is_agent
  mint_token_claims now req r small h =
      let (positive, e, encoded) = mint_token-ok now req r h in
      let expires = minted-exp now req r small h in
      (
        ap (λ c. c.sub) e,
        rw e,
        ap (λ c. c.user) e,
        ap (λ c. c.iss) e,
        expires,
        subst (λ x. (now +ℤ pos 1) ≤ℤ x) (sym expires) (later now (request_ttl req) positive),
      )

  -- A lifetime whose sum with the time is past the largest i64 is not refused: the token expires
  -- before 1970.
  pub mint_token_wraps :
      (t n : ℕ) (req : MintRequest) (r : MintResponse)
      → request_ttl req ≡ pos n
      → i64_end ≤ t + n
      → t + n < u64_end
      → mint_token jwt auth (pos t) req ≡ ok r
      → r.claims.exp ≡ negsuc (u64_end - 1 - (t + n))
  unfolding agent
  mint_token_wraps t n req r e large small h =
      ap (λ c. c.exp) (mint_token-ok (pos t) req r h).1
      ∙ ap (add_i64 (pos t)) e
      ∙ ap wrap_i64 (pos_sum t n)
      ∙ wrap_i64-over (t + n) large small

  minted-validate :
      (now : ℤ) (req : MintRequest) (r : MintResponse) (then_ : ℤ)
      → RoundTrips jwt auth.signing_key
      → mint_token jwt auth now req ≡ ok r
      → then_ ≤ℤ r.claims.exp
      → validate jwt auth then_ r.token ≡ ok r.claims
  unfolding validate agent
  minted-validate now req r then_ trips h before =
      let (positive, e, encoded) = mint_token-ok now req r h in
      let iss = ap (λ c. c.iss) e in
      let decoded = trips r.claims r.token then_ encoded before in
      rw (sym iss) (rw decoded (agent_role-check_role r.claims (ap (λ c. c.role) e)))

  -- Where encoding and decoding round-trip, and the time of minting with the lifetime that was asked
  -- for (or 30 days) is within an i64: for that lifetime a minted token opens the tunnel of the
  -- request's agent and of no other agent, passes the gate of that agent's routes, and is refused
  -- with status 403 by the admin routes.
  pub minted_token_scope :
      (now : ℤ) (req : MintRequest) (r : MintResponse) (then_ : ℤ)
      → RoundTrips jwt auth.signing_key
      → IsI64 (now +ℤ request_ttl req)
      → mint_token jwt auth now req ≡ ok r
      → then_ ≤ℤ (now +ℤ request_ttl req)
      → (authorize_tunnel jwt auth then_ req.agent_id (some r.token) ≡ ok r.claims)
        × ((other : Uuid)
            → other ≢ req.agent_id
            → authorize_tunnel jwt auth then_ other (some r.token) ≡ err agent_mismatch)
        × ((header : Option String)
            → bearer_of header ≡ some r.token
            → require_admin jwt auth then_ header ≡ refused 403 "admin role required")
        × ((parse_str : String → Option Uuid) (header : Option String) (path : String)
            → bearer_of header ≡ some r.token
            → path_agent_id parse_str path ≡ some req.agent_id
            → require_agent_or_admin jwt auth then_ parse_str header path ≡ admitted)
  unfolding authorize_tunnel require_admin require_agent_or_admin validate_bearer agent
  minted_token_scope now req r then_ trips small h lives =
      let e = (mint_token-ok now req r h).1 in
      let before = subst (λ x. then_ ≤ℤ x) (sym (minted-exp now req r small h)) lives in
      let own = ap (λ c. c.sub) e in
      let agents = an_agent r.claims (ap (λ c. c.role) e) in
      let admins = not_admin r.claims (ap (λ c. c.role) e) in
      let valid = minted-validate now req r then_ trips h before in
      (
        ground arith,
        λ other apart. ground arith,
        λ header b. ground arith,
        λ parse_str header path b p. ground arith,
      )
