-- ===== src/Auth.antt =====
-- server/src/auth.rs: the claims of a token, and the authenticator that signs and checks tokens.
use overacp.Prelude.Int.{add_i64, ℤ}
use overacp.Prelude.Result.{Result, err, map_err, ok, ◌>>=◌}
use overacp.Prelude.Texts.{push_str}
use overacp.Prelude.{Bool, Option, String, Uuid, if◌then◌else◌, nat_eq, none, string_eq, ◌==◌, ◌||◌}

pub record Claims : Type 0 where
  pub sub : Uuid
  pub role : String
  pub user : Option Uuid
  pub exp : ℤ  -- Unix time in seconds, an i64
  pub iss : String

abbrev pub role_admin : String
role_admin = "admin"

abbrev pub role_agent : String
role_agent = "agent"

-- `Claims::admin` and `Claims::agent`; `now` is `Utc::now().timestamp()`. A release build
-- wraps the sum around; a debug build panics where it does.
unfoldable pub admin : Uuid → ℤ → String → ℤ → Claims
admin sub ttl_secs issuer now = record {
  sub = sub;
  role = role_admin;
  user = none;
  exp = add_i64 now ttl_secs;
  iss = issuer;
}

unfoldable pub agent : Uuid → Option Uuid → ℤ → String → ℤ → Claims
agent agent_id of_user ttl_secs issuer now = record {
  sub = agent_id;
  role = role_agent;
  user = of_user;
  exp = add_i64 now ttl_secs;
  iss = issuer;
}

unfoldable pub is_admin : Claims → Bool
is_admin claims = claims.role == role_admin

unfoldable pub is_agent : Claims → Bool
is_agent claims = claims.role == role_agent

pub data AuthError : Type 0 where
  invalid : String → AuthError

pub record StaticJwtAuthenticator : Type 0 where
  pub signing_key : String
  pub issuer : String

-- The functions of the crate `jsonwebtoken` that the authenticator calls, over the payload type of
-- this program. `decode` is given the secret, the accepted issuer, the time and the token, and says
-- in words why it fails; `encode` is given the claims and the secret.
pub record Jwt : Type 0 where
  pub decode : String → String → ℤ → String → Result String Claims
  pub encode : Claims → String → Result String String

abbrev pub check_role : Claims → Result AuthError Claims
check_role claims =
    if claims.role == role_admin || claims.role == role_agent
    then ok claims
    else err (invalid (push_str "invalid role: " claims.role))

module _ (jwt : Jwt) where
  unfoldable pub validate : StaticJwtAuthenticator → ℤ → String → Result AuthError Claims
  validate auth now token =
      map_err invalid (jwt.decode auth.signing_key auth.issuer now token) >>= check_role

  unfoldable pub mint : StaticJwtAuthenticator → Claims → Result AuthError String
  mint auth claims = map_err invalid (jwt.encode claims auth.signing_key)
