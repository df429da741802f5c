-- ===== src/Routes.antt =====
-- server/src/routes.rs and server/src/api/tokens.rs: who may call a route, who may hold a tunnel, and
-- the minting of agent tokens. A handler behind a gate runs exactly when the gate is `admitted`.
pub mod Gates
pub mod Tokens
pub mod Examples
use Prim.Native.Char.{code}
use Prim.Native.String.{String}
use overacp.Auth.{
  AuthError, Claims, Jwt, StaticJwtAuthenticator, agent, invalid, is_admin, is_agent, mint,
  validate,
}
use overacp.Broker.{ApiError, bad_request, internal}
use overacp.Prelude.Int.{leb_ℤ, pos, ℤ}
use overacp.Prelude.Result.{Result, err, map_err, map_ok, ok, ◌>>=◌}
use overacp.Prelude.Texts.{push_str, strip_prefix}
use overacp.Prelude.{
  Option, Uuid, if◌then◌else◌, nat_beq, nat_eq, none, not, some, string_eq, ℕ, ◌==◌,
}

pub data Gate : Type 0 where
  admitted : Gate
  refused : ℕ → String → Gate

abbrev after_bearer : String → Option String
after_bearer value = strip_prefix value "Bearer "

-- The `authorization` header, if it is there and is text, down to the token.
unfoldable pub bearer_of : Option String → Option String
bearer_of none = none
bearer_of (some value) = after_bearer value

abbrev or_query : Option String → Option String → Option String
or_query none query = query
or_query (some t) query = some t

unfoldable pub extract_bearer_token : Option String → Option String → Option String
extract_bearer_token header query = or_query (bearer_of header) query

-- `split('/').next()`: the text before the first slash.
abbrev pub first_segment : String → String
first_segment String.[] = String.[]
first_segment (String.◌∷◌ c s) =
    let rest = first_segment s in if nat_beq (code c) 47 then String.[] else String.◌∷◌ c rest

abbrev parse_segment : (String → Option Uuid) → Option String → Option Uuid
parse_segment parse_str none = none
parse_segment parse_str (some rest) = parse_str (first_segment rest)

-- `parse_str` is that of the crate `uuid`.
unfoldable pub path_agent_id : (String → Option Uuid) → String → Option Uuid
path_agent_id parse_str path = parse_segment parse_str (strip_prefix path "/agents/")

pub data TunnelAuthRejection : Type 0 where
  missing_token invalid_token wrong_role agent_mismatch : TunnelAuthRejection

-- `TunnelAuthRejection::into_response`
unfoldable pub rejection_response : TunnelAuthRejection → Gate
rejection_response missing_token = refused 401 "missing token"
rejection_response invalid_token = refused 401 "invalid token"
rejection_response wrong_role = refused 403 "agent role required"
rejection_response agent_mismatch = refused 403 "token agent mismatch"

pub record MintRequest : Type 0 where
  pub agent_id : Uuid
  pub user : Option Uuid
  pub ttl_secs : Option ℤ

pub record MintResponse : Type 0 where
  pub token : String
  pub claims : Claims

abbrev pub default_agent_ttl_secs : ℤ
default_agent_ttl_secs = pos 2592000

abbrev ttl_of : Option ℤ → ℤ
ttl_of none = default_agent_ttl_secs
ttl_of (some n) = n

abbrev pub request_ttl : MintRequest → ℤ
request_ttl req = ttl_of req.ttl_secs

abbrev error_text : AuthError → String
error_text (invalid s) = push_str "invalid token: " s

abbrev pub gate_by : (Claims → Gate) → Result Gate Claims → Gate
gate_by f (ok claims) = f claims
gate_by f (err g) = g

abbrev pub admin_gate : Claims → Gate
admin_gate claims = if not (is_admin claims) then refused 403 "admin role required" else admitted

abbrev pub matched : Option Uuid → Uuid → Gate
matched none sub = refused 403 "admin role required for this route"
matched (some i) sub = if i == sub then admitted else refused 403 "token agent mismatch"

abbrev pub agent_gate : Option Uuid → Claims → Gate
agent_gate path_id claims =
    if is_admin claims
    then admitted
    else if not (is_agent claims)
    then refused 403 "admin or agent role required"
    else matched path_id claims.sub

abbrev pub tunnel_gate : Uuid → Claims → Result TunnelAuthRejection Claims
tunnel_gate agent_id claims =
    if not (is_agent claims)
    then err wrong_role
    else if not (claims.sub == agent_id)
    then err agent_mismatch
    else ok claims

abbrev pub minted : Claims → String → MintResponse
minted claims token = record { token = token; claims = claims }

module _ (jwt : Jwt) (auth : StaticJwtAuthenticator) (now : ℤ) where
  abbrev pub validated : Option String → Result Gate Claims
  validated none = err (refused 401 "missing bearer token")
  validated (some t) = map_err (λ e. refused 401 "invalid token") (validate jwt auth now t)

  unfoldable pub validate_bearer : Option String → Result Gate Claims
  validate_bearer header = validated (bearer_of header)

  unfoldable pub require_admin : Option String → Gate
  require_admin header = gate_by admin_gate (validate_bearer header)

  unfoldable pub require_agent_or_admin : (String → Option Uuid) → Option String → String → Gate
  require_agent_or_admin parse_str header path =
      gate_by (agent_gate (path_agent_id parse_str path)) (validate_bearer header)

  unfoldable pub authorize_tunnel : Uuid → Option String → Result TunnelAuthRejection Claims
  authorize_tunnel agent_id none = err missing_token
  authorize_tunnel agent_id (some t) =
      map_err (λ e. invalid_token) (validate jwt auth now t) >>= tunnel_gate agent_id

  -- The status of a success is 201.
  unfoldable pub mint_token : MintRequest → Result ApiError MintResponse
  mint_token req =
      if leb_ℤ (request_ttl req) (pos 0)
      then err (bad_request "ttl_secs must be positive")
      else let claims = agent req.agent_id req.user (request_ttl req) auth.issuer now in
        map_err (λ e. internal (push_str "mint failed: " (error_text e)))
          (map_ok (minted claims) (mint jwt auth claims))
