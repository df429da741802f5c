-- ===== src/Routes/Gates.antt =====
-- server/src/routes.rs: who passes each gate, and with which status the others are refused.
-- What a token must be for an agent's routes: an admin's, or that of the agent of the path.
use overacp.Auth.{Claims, Jwt, StaticJwtAuthenticator, is_admin, is_agent, validate}
use overacp.Prelude.Int.{ℤ}
use overacp.Prelude.Result.{Result-cases, err, ok}
use overacp.Prelude.{
  Option, String, Uuid, ap, arith, inl, inr, none, refl, some, subst, sym, true, ℕ, ◌↔◌, ◌∙◌, ◌≡◌,
  ◌⊎◌,
}
use overacp.Routes.{
  Gate, admin_gate, admitted, agent_gate, authorize_tunnel, bearer_of, gate_by, path_agent_id,
  refused, require_admin, require_agent_or_admin, validate_bearer, validated,
}

abbrev pub MayCall : Option Uuid → Claims → Type 0
MayCall path_id claims =
    (is_admin claims ≡ true) ⊎ ((is_agent claims ≡ true) × (path_id ≡ some claims.sub))

agent_gate-MayCall :
    (path_id : Option Uuid) (claims : Claims)
    → (agent_gate path_id claims ≡ admitted) ↔ MayCall path_id claims
agent_gate-MayCall none claims = (λ h. ground arith, λ h. ground arith)
agent_gate-MayCall (some i) claims = (λ h. ground arith, λ h. ground arith)

admin_gate-is_admin : (claims : Claims) → (admin_gate claims ≡ admitted) ↔ (is_admin claims ≡ true)
admin_gate-is_admin claims = (λ h. ground arith, λ h. ground arith)

refused-admitted : (n : ℕ) (s : String) → refused n s ≡ admitted → ⊥
refused-admitted n s h = ground arith

module _ (jwt : Jwt) (auth : StaticJwtAuthenticator) (now : ℤ) where
  -- The token of a request: a bearer token in its header that the authenticator accepts.
  abbrev pub Presents : Option String → Claims → Type 0
  Presents header claims =
      (t : String) × (bearer_of header ≡ some t) × (validate jwt auth now t ≡ ok claims)

  validated-cases :
      (o : Option String)
      → ((claims : Claims) × (validated jwt auth now o ≡ ok claims)
          × ((t : String) × (o ≡ some t) × (validate jwt auth now t ≡ ok claims)))
        ⊎ ((s : String) × (validated jwt auth now o ≡ err (refused 401 s))
            × ((t : String) (claims : Claims)
                → o ≡ some t
                → validate jwt auth now t ≡ ok claims
                → ⊥))
  validated-cases none = inr (_, refl, λ t claims h v. ground arith)
  validated-cases (some t) = elim (Result-cases (validate jwt auth now t)) [
    | inl (claims, e) ↦ inl (claims, rw e, (t, refl, e))
    | inr (x, e) ↦ inr ("invalid token", rw e, λ t claims h v. ground arith)
  ]

  Presents-same :
      (header : Option String) (c d : Claims) → Presents header c → Presents header d → c ≡ d
  Presents-same header c d p q = ground arith

  gate-Presents :
      (P : Claims → Type 0) (f : Claims → Gate) (header : Option String)
      → ((claims : Claims) → (f claims ≡ admitted) ↔ P claims)
      → (gate_by f (validate_bearer jwt auth now header) ≡ admitted)
        ↔ ((claims : Claims) × Presents header claims × P claims)
  unfolding validate_bearer
  gate-Presents P f header same = elim (validated-cases (bearer_of header)) [
    | inl (claims, e, p) ↦ (
      λ h. (claims, p, (same claims).0 (sym (ap (gate_by f) e) ∙ h)),
      λ (d, q, m).
          ap (gate_by f) e ∙ (same claims).1 (subst P (Presents-same header d claims q p) m),
    )
    | inr (s, e, no_token) ↦ (
      λ h. absurd (refused-admitted 401 s (sym (ap (gate_by f) e) ∙ h)),
      λ (d, (t, b, v), m). absurd (no_token t d b v),
    )
  ]

  -- The agent routes admit a request exactly when its header bears a token that is accepted and that
  -- is an admin's, or an agent's whose subject is the id in the path. The admin routes admit it
  -- exactly when the token is an admin's.
  pub gates_admit :
      (parse_str : String → Option Uuid) (header : Option String) (path : String)
      → ((require_agent_or_admin jwt auth now parse_str header path ≡ admitted) ↔ (
          (claims : Claims) × Presents header claims
          × MayCall (path_agent_id parse_str path) claims))
        × ((require_admin jwt auth now header ≡ admitted)
            ↔ ((claims : Claims) × Presents header claims × (is_admin claims ≡ true)))
  unfolding require_agent_or_admin require_admin
  gates_admit parse_str header path = (
    gate-Presents _ _ header (agent_gate-MayCall (path_agent_id parse_str path)),
    gate-Presents _ _ header admin_gate-is_admin,
  )

  -- A tunnel of an agent is authorized, with some claims, exactly when a token is given, the
  -- authenticator accepts it with those claims, and they are an agent's whose subject is that agent.
  pub authorize_tunnel_iff :
      (agent_id : Uuid) (token : Option String) (claims : Claims)
      → (authorize_tunnel jwt auth now agent_id token ≡ ok claims) ↔ (
          (t : String) × (token ≡ some t)
          × (validate jwt auth now t ≡ ok claims)
          × (is_agent claims ≡ true)
          × (claims.sub ≡ agent_id))
  unfolding authorize_tunnel
  authorize_tunnel_iff agent_id none claims = (λ h. absurd (ground arith), λ h. ground arith)
  authorize_tunnel_iff agent_id (some t) claims = elim (Result-cases (validate jwt auth now t)) [
    | inl (c, e) ↦ (λ h. (t, refl, ground arith, ground arith, ground arith), λ h. ground arith)
    | inr (x, e) ↦ (λ h. absurd (ground arith), λ h. ground arith)
  ]
