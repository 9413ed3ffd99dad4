-- ===== src/Login.antt =====
-- web/auth_secure.go, `SecureLoginHandler.ServeHTTP`; and web/server.go, `authMiddleware`,
-- `extractToken` and `logoutHandler`: how a login leads to a token, and what a token opens.
--
-- The limiter of logins, from golang.org/x/time/rate, and the comparison with the password's hash, from
-- bcrypt, are parameters. The address of the client is given.
pub mod Opening
mod Examples
use Prim.Native.String.{len, slice}
use ofelia.Common.{
  ℕ, String, Bool, true, false, not, ◌&&◌, ◌||◌, Option, none, some, leb, if◌then◌else◌, ◌is◌,
  prefix,
}
use ofelia.Tokens.{
  TokenData, SecureTokenManager, generate_token, validate_token, revoke_token, generate_csrf_token,
  validate_csrf_token,
}

pub record Credentials : Type 0 where
  pub username : String
  pub password : String

-- A request to log in; `credentials` is `none` if the body does not decode. `rand_token` and
-- `rand_csrf` are the random tokens that are drawn, `none` where `rand.Read` fails.
pub record LoginRequest : Type 0 where
  pub is_post : Bool
  pub client_ip : String
  pub csrf_token : String
  pub credentials : Option Credentials
  pub rand_token : Option String
  pub rand_csrf : Option String

pub data LoginAnswer : Type 0 where
  status : ℕ → LoginAnswer
  logged_in : String → String → LoginAnswer

pub record Auth (R : Type 0) : Type 0 where
  pub username : String
  pub password_hash : String
  pub token_manager : SecureTokenManager
  pub rate_limiter : R

module _ {R : Type 0} where
  abbrev pub with_csrf : Auth R → String → SecureTokenManager × Option String → Auth R × LoginAnswer
  with_csrf h token (tm, none) = (record h { token_manager = tm }, status 500)
  with_csrf h token (tm, some csrf) = (record h { token_manager = tm }, logged_in token csrf)

  -- After `GenerateToken`.
  abbrev pub with_token :
      Auth R → LoginRequest → ℕ → SecureTokenManager × Option String → Auth R × LoginAnswer
  with_token h r now (tm, none) = (record h { token_manager = tm }, status 500)
  with_token h r now (tm, some token) = with_csrf h token (generate_csrf_token r.rand_csrf now tm)

  abbrev pub check_credentials :
      (String → String → Bool)
      → Auth R
      → LoginRequest
      → ℕ
      → Option Credentials
      → Auth R × LoginAnswer
  check_credentials compare h r now none = (h, status 400)
  check_credentials compare h r now (some c) =
      if not (c.username is h.username) || not (compare h.password_hash c.password)
      then (h, status 401)
      else with_token h r now (generate_token r.rand_token c.username now h.token_manager)

  -- After `ValidateCSRFToken`.
  abbrev pub after_csrf :
      (String → String → Bool)
      → Auth R
      → LoginRequest
      → ℕ
      → SecureTokenManager × Bool
      → Auth R × LoginAnswer
  after_csrf compare h r now (tm, ok) =
      if not ok
      then (record h { token_manager = tm }, status 403)
      else check_credentials compare (record h { token_manager = tm }) r now r.credentials

  -- After `rateLimiter.Allow`.
  abbrev pub after_allow :
      (String → String → Bool) → Auth R → LoginRequest → ℕ → R × Bool → Auth R × LoginAnswer
  after_allow compare h r now (limiter, ok) =
      let h' = record h { rate_limiter = limiter } in
      if not ok
      then (h', status 429)
      else if r.csrf_token is ""
      then (h', status 403)
      else after_csrf compare h' r now (validate_csrf_token r.csrf_token now h.token_manager)

  unfoldable pub login :
      (String → R → R × Bool)
      → (String → String → Bool)
      → LoginRequest
      → ℕ
      → Auth R
      → Auth R × LoginAnswer
  unfolding generate_token generate_csrf_token validate_csrf_token
  login allow compare r now h =
      if not r.is_post
      then (h, status 405)
      else after_allow compare h r now (allow r.client_ip h.rate_limiter)

-- What of a request the middleware reads; `cookie` is the cookie `auth_token`.
pub record AccessRequest : Type 0 where
  pub path : String
  pub authorization : String
  pub cookie : Option String

abbrev pub starts_with_text : String → String → Bool
starts_with_text start s = leb (len start) (len s) && (prefix s (len start) is start)

abbrev pub cookie_or_none : Option String → String
cookie_or_none none = ""
cookie_or_none (some c) = c

unfoldable pub extract_token : AccessRequest → String
extract_token r =
    if starts_with_text "Bearer " r.authorization
    then slice r.authorization 7 (len r.authorization)
    else cookie_or_none r.cookie

-- The paths that need no token.
unfoldable pub is_open_path : String → Bool
is_open_path path =
    path is "/api/login"
    || path is "/api/csrf-token"
    || path is "/api/auth/status"
    || path is "/health"
    || path is "/healthz"
    || path is "/ready"
    || path is "/live"
    || not (starts_with_text "/api/" path)

-- What the middleware does: it passes the request on, with the user's name if a token told it.
pub data Admission : Type 0 where
  passes : Option String → Admission
  unauthorized : Admission

abbrev pub access_of : Option TokenData → Admission
access_of none = unauthorized
access_of (some d) = passes (some d.username)

unfoldable pub auth_middleware : AccessRequest → ℕ → SecureTokenManager → Admission
unfolding is_open_path extract_token validate_token
auth_middleware r now tm =
    if is_open_path r.path
    then passes none
    else if extract_token r is ""
    then unauthorized
    else access_of (validate_token (extract_token r) now tm)

-- The change that `logoutHandler` makes, on a request that is a POST.
unfoldable pub logout : AccessRequest → SecureTokenManager → SecureTokenManager
unfolding extract_token revoke_token
logout r tm = if extract_token r is "" then tm else revoke_token (extract_token r) tm
