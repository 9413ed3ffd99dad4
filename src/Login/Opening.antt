-- ===== src/Login/Opening.antt =====
-- What a login that succeeds has checked, and what its token opens, until when.
use ofelia.Common.{
  ℕ, ◌+◌, String, Bool, true, false, not, ◌||◌, ◌≡◌, refl, ap, ◌∙◌, Option, none, some, List, ltb,
  if◌then◌else◌, if-false, ◌is◌, is_iff, arith,
}
use ofelia.Tokens.{
  SecureTokenManager, use_csrf, generate_token, validate_token, generate_csrf_token,
  validate_csrf_token, Call, calls,
}
use ofelia.Tokens.Sessions.{all_spare, validate_token-calls, validate_token-generate_token}
use ofelia.Login.{
  Credentials, LoginRequest, LoginAnswer, status, logged_in, Auth, with_csrf, with_token,
  check_credentials, after_csrf, after_allow, login, AccessRequest, extract_token, is_open_path,
  passes, unauthorized, access_of, auth_middleware,
}

abbrev is_logged_in : LoginAnswer → Bool
is_logged_in (status n) = false
is_logged_in (logged_in token csrf) = true

module _ {R : Type 0} where
  -- A check that would have been answered otherwise has not been.
  got_past :
      (b : Bool) (h : Auth R) (n : ℕ) (rest : Auth R × LoginAnswer)
      → is_logged_in (if b then (h, status n) else rest).1 ≡ true
      → (b ≡ false) × (is_logged_in rest.1 ≡ true)
  got_past false h n rest x = (refl, x)
  got_past true h n rest x = absurd (ground arith)

  credentials-checked :
      (compare : String → String → Bool) (h : Auth R) (r : LoginRequest) (now : ℕ)
      (o : Option Credentials)
      → is_logged_in (check_credentials compare h r now o).1 ≡ true
      → (c : Credentials) × (o ≡ some c)
        × (c.username ≡ h.username)
        × (compare h.password_hash c.password ≡ true)
  credentials-checked compare h r now none x = absurd (ground arith)
  credentials-checked compare h r now (some c) x =
      let (known, made) =
        got_past (not (c.username is h.username) || not (compare h.password_hash c.password)) h 401
          (with_token h r now (generate_token r.rand_token c.username now h.token_manager)) x in
      (c, refl, ground (arith, is_iff c.username h.username), ground arith)

module _ {R : Type 0} (allow : String → R → R × Bool) (compare : String → String → Bool) where
  -- Only a POST that the limiter allowed for the address of the client, with a CSRF token that was
  -- valid, and with the user's name and a password that fits the hash, is answered with tokens.
  pub login-checked :
      (r : LoginRequest) (now : ℕ) (h : Auth R)
      → is_logged_in (login allow compare r now h).1 ≡ true
      → (r.is_post ≡ true)
        × ((allow r.client_ip h.rate_limiter).1 ≡ true)
        × ((validate_csrf_token r.csrf_token now h.token_manager).1 ≡ true)
        × (c : Credentials) × (r.credentials ≡ some c)
        × (c.username ≡ h.username)
        × (compare h.password_hash c.password ≡ true)
  unfolding login
  login-checked r now h x =
      let (limiter, ok) = allow r.client_ip h.rate_limiter in
      let (tm, valid) = validate_csrf_token r.csrf_token now h.token_manager in
      let h₁ = record h { rate_limiter = limiter } in
      let h₂ = record h₁ { token_manager = tm } in
      let at_credentials = check_credentials compare h₂ r now r.credentials in
      let at_csrf = after_csrf compare h₁ r now (tm, valid) in
      let at_limit = after_allow compare h r now (limiter, ok) in
      let (post, x₁) = got_past (not r.is_post) h 405 at_limit x in
      let (allowed, x₂) =
        got_past (not ok) h₁ 429 (if r.csrf_token is "" then (h₁, status 403) else at_csrf) x₁ in
      let (filled, x₃) = got_past (r.csrf_token is "") h₁ 403 at_csrf x₂ in
      let (fresh, x₄) = got_past (not valid) h₂ 403 at_credentials x₃ in
      let (c, there, user, pass) = credentials-checked compare h₂ r now r.credentials x₄ in
      (ground arith, ground arith, ground arith, c, there, user, pass)

  use_csrf-expiry :
      (token : String) (now : ℕ) (o : Option ℕ) (tm : SecureTokenManager)
      → (use_csrf token now o tm).0.token_expiry ≡ tm.token_expiry
  use_csrf-expiry token now none tm = refl
  use_csrf-expiry token now (some expiry) tm = refl

  auth_middleware-opens :
      (d : AccessRequest) (token username : String) (at later : ℕ) (tm : SecureTokenManager)
      → is_open_path d.path ≡ false
      → extract_token d ≡ token
      → (token is "") ≡ false
      → validate_token token later tm
        ≡ (if ltb at later then none else some (record { username = username; expires_at = at }))
      → auth_middleware d later tm ≡ (if ltb at later then unauthorized else passes (some username))
  unfolding auth_middleware
  auth_middleware-opens d token username at later tm closed sent filled valid =
      if-false closed _ _
      ∙ if-false (ap (λ t. t is "") sent ∙ filled) _ _
      ∙ ap (λ t. access_of (validate_token t later tm)) sent
      ∙ ap access_of valid
      ∙ ground arith

  module _ (r : LoginRequest) (now : ℕ) (h : Auth R) (c : Credentials) (token csrf : String)
      (post : r.is_post ≡ true) (allowed : (allow r.client_ip h.rate_limiter).1 ≡ true)
      (filled : (r.csrf_token is "") ≡ false)
      (fresh : (validate_csrf_token r.csrf_token now h.token_manager).1 ≡ true)
      (there : r.credentials ≡ some c) (user : c.username ≡ h.username)
      (fits : compare h.password_hash c.password ≡ true) (drawn : r.rand_token ≡ some token)
      (drawn_csrf : r.rand_csrf ≡ some csrf) where
    abbrev logged : Auth R
    logged =
        let tm = (validate_csrf_token r.csrf_token now h.token_manager).0 in
        record h {
          rate_limiter = (allow r.client_ip h.rate_limiter).0;
          token_manager =
              (generate_csrf_token (some csrf) now
                (generate_token (some token) c.username now tm).0).0;
        }

    login-logged : login allow compare r now h ≡ (logged, logged_in token csrf)
    unfolding login
    login-logged =
        let (limiter, ok) = allow r.client_ip h.rate_limiter in
        let (tm, valid) = validate_csrf_token r.csrf_token now h.token_manager in
        let h₂ = record h { rate_limiter = limiter; token_manager = tm } in
        if-false (ap not post) _ _
        ∙ if-false (ap not allowed) _ _
        ∙ if-false filled _ _
        ∙ if-false (ap not fresh) _ _
        ∙ ap (λ o. check_credentials compare h₂ r now o) there
        ∙ if-false {b = not (c.username is h.username) || not (compare h.password_hash c.password)}
            (ground (arith, is_iff c.username h.username)) _ _
        ∙ ap (λ o. with_token h₂ r now (generate_token o c.username now tm)) drawn
        ∙ ap
            (λ o.
              with_csrf h₂ token
                (generate_csrf_token o now (generate_token (some token) c.username now tm).0))
            drawn_csrf

    -- A POST that the limiter allowed, with a CSRF token that was valid and the right name and
    -- password, where random tokens were drawn: the answer has the tokens. A request for a path that
    -- needs a token, sent with this one after other calls that neither make nor revoke it and clean
    -- up at the latest at the time of that request, passes as the user exactly up to the expiry.
    pub login-opens :
        (d : AccessRequest) (later : ℕ) (xs : List Call)
        → is_open_path d.path ≡ false
        → extract_token d ≡ token
        → (token is "") ≡ false
        → all_spare token later xs ≡ true
        → let (h', answer) = login allow compare r now h in
          (answer ≡ logged_in token csrf)
          × (auth_middleware d later (calls xs h'.token_manager) ≡ (
              if ltb (now + h.token_manager.token_expiry) later
              then unauthorized
              else passes (some h.username)))
    unfolding validate_csrf_token generate_csrf_token validate_token
    login-opens d later xs closed sent nonempty spared =
        let tm = (validate_csrf_token r.csrf_token now h.token_manager).0 in
        let tm₁ = (generate_token (some token) c.username now tm).0 in
        let same =
          use_csrf-expiry r.csrf_token now (h.token_manager.csrf_tokens r.csrf_token)
            h.token_manager in
        let until = validate_token-generate_token token c.username now later tm in
        (
          ap (λ x. x.1) login-logged,
          ap (λ x. auth_middleware d later (calls xs x.0.token_manager)) login-logged
              ∙ auth_middleware-opens d token c.username (now + tm.token_expiry) later
                  (calls xs logged.token_manager) closed sent nonempty
                  (validate_token-calls token later xs logged.token_manager spared ∙ until)
              ∙ ap (λ e. if ltb (now + e) later then unauthorized else passes (some c.username))
                  same
              ∙ ap
                  (λ u.
                    if ltb (now + h.token_manager.token_expiry) later
                    then unauthorized
                    else passes (some u))
                  user,
        )
