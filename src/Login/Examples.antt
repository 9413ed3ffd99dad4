-- ===== src/Login/Examples.antt =====
-- The theorems on logins at a concrete login. A password fits its hash if the two are equal, and the
-- limiter counts down.
use ofelia.Common.{
  ℕ, ◌+◌, ◌-◌, String, Bool, true, false, ◌≡◌, refl, Option, none, some, List, [], ◌∷◌, ltb,
  if◌then◌else◌, ◌is◌,
}
use ofelia.Tokens.{SecureTokenManager, validate_csrf_token, generates, calls}
use ofelia.Login.{
  Credentials, LoginRequest, LoginAnswer, logged_in, Auth, login, AccessRequest, Admission, passes,
  unauthorized, auth_middleware,
}
use ofelia.Login.Opening.{login-checked, login-opens}

abbrev allow : String → ℕ → ℕ × Bool
allow ip left = (left - 1, ltb 0 left)

abbrev compare : String → String → Bool
compare hash password = hash is password

abbrev auth : Auth ℕ
auth = record {
  username = "admin";
  password_hash = "secret";
  token_manager = record {
    tokens = λ t. none;
    token_expiry = 100;
    csrf_tokens = λ t. if t is "c1" then some 50 else none;
  };
  rate_limiter = 5;
}

abbrev admin : Credentials
admin = record { username = "admin"; password = "secret" }

abbrev request : LoginRequest
request = record {
  is_post = true;
  client_ip = "10.0.0.1";
  csrf_token = "c1";
  credentials = some admin;
  rand_token = some "t1";
  rand_csrf = some "c2";
}

login-checked_example :
    (request.is_post ≡ true)
    × ((allow request.client_ip auth.rate_limiter).1 ≡ true)
    × ((validate_csrf_token request.csrf_token 10 auth.token_manager).1 ≡ true)
    × (c : Credentials) × (request.credentials ≡ some c)
    × (c.username ≡ auth.username)
    × (compare auth.password_hash c.password ≡ true)
unfolding login ◌is◌
login-checked_example = login-checked allow compare request 10 auth refl

abbrev jobs : AccessRequest
jobs = record { path = "/api/jobs"; authorization = ""; cookie = some "t1" }

login-opens_example :
    let (h', answer) = login allow compare request 10 auth in
    (answer ≡ logged_in "t1" "c2")
    × (auth_middleware jobs 60 (calls (generates (some "t2") "admin" 20 ∷ []) h'.token_manager) ≡ (
        if ltb (10 + auth.token_manager.token_expiry) 60
        then unauthorized
        else passes (some auth.username)))
unfolding ◌is◌ validate_csrf_token ofelia.Login.is_open_path ofelia.Common.prefix
    ofelia.Login.extract_token ofelia.Tokens.Sessions.all_spare
login-opens_example =
    login-opens allow compare request 10 auth admin "t1" "c2" refl refl refl refl refl refl refl
      refl refl jobs 60 (generates (some "t2") "admin" 20 ∷ []) refl refl refl refl
