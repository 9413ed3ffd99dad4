-- ===== src/Tokens/Sessions.antt =====
-- How long a login token is valid.
use ofelia.Common.{
  ℕ, ◌+◌, String, Bool, true, false, not, ◌&&◌, ◌≡◌, refl, ap, ◌∙◌, Option, none, some, List, [],
  ◌∷◌, ltb, if◌then◌else◌, if-true, ◌is◌, is_refl, arith,
}
use ofelia.Tokens.{
  TokenData, SecureTokenManager, generate_token, validate_token, revoke_token, unexpired, use_csrf,
  Call, generates, revokes, cleans, generates_csrf, validates_csrf, cleans_csrf, call, calls,
}

-- Whether the call neither makes nor revokes the token, nor cleans up after the time `now`.
abbrev pub spares : String → ℕ → Call → Bool
spares token now (generates none username at) = true
spares token now (generates (some t) username at) = not (token is t)
spares token now (revokes t) = not (token is t)
spares token now (cleans at) = not (ltb now at)
spares token now (generates_csrf rand at) = true
spares token now (validates_csrf t at) = true
spares token now (cleans_csrf at) = true

unfoldable pub all_spare : String → ℕ → List Call → Bool
all_spare token now [] = true
all_spare token now (x ∷ xs) = spares token now x && all_spare token now xs

unexpired-unexpired :
    (a b : ℕ) (o : Option TokenData) → ltb b a ≡ false → unexpired b (unexpired a o) ≡ unexpired b o
unexpired-unexpired a b o h = ground arith

use_csrf-tokens :
    (t : String) (at : ℕ) (o : Option ℕ) (tm : SecureTokenManager)
    → (use_csrf t at o tm).0.tokens ≡ tm.tokens
use_csrf-tokens t at none tm = refl
use_csrf-tokens t at (some expiry) tm = refl

validate_token-call :
    (token : String) (now : ℕ) (x : Call) (tm : SecureTokenManager)
    → spares token now x ≡ true
    → validate_token token now (call x tm) ≡ validate_token token now tm
unfolding validate_token call
validate_token-call token now (generates none username at) tm h = refl
validate_token-call token now (generates (some t) username at) tm h = ground arith
validate_token-call token now (revokes t) tm h = ground arith
validate_token-call token now (cleans at) tm h = ground arith
validate_token-call token now (generates_csrf none at) tm h = refl
validate_token-call token now (generates_csrf (some t) at) tm h = refl
validate_token-call token now (validates_csrf t at) tm h =
    ap (λ m. unexpired now (m token)) (use_csrf-tokens t at (tm.csrf_tokens t) tm)
validate_token-call token now (cleans_csrf at) tm h = refl

pub validate_token-calls :
    (token : String) (now : ℕ) (xs : List Call) (tm : SecureTokenManager)
    → all_spare token now xs ≡ true
    → validate_token token now (calls xs tm) ≡ validate_token token now tm
unfolding calls all_spare
validate_token-calls token now [] tm h = refl
validate_token-calls token now (x ∷ xs) tm h =
    validate_token-calls token now xs (call x tm) (ground arith)
    ∙ validate_token-call token now x tm (ground arith)

pub validate_token-generate_token :
    (token username : String) (at now : ℕ) (tm : SecureTokenManager)
    → validate_token token now (generate_token (some token) username at tm).0 ≡ (
        if ltb (at + tm.token_expiry) now
        then none
        else some (record { username = username; expires_at = at + tm.token_expiry }))
unfolding validate_token generate_token
validate_token-generate_token token username at now tm =
    ap (unexpired now) (if-true (is_refl token) _ _)

validate_token-revoke_token :
    (token : String) (now : ℕ) (tm : SecureTokenManager)
    → validate_token token now (revoke_token token tm) ≡ none
unfolding validate_token revoke_token
validate_token-revoke_token token now tm = ap (unexpired now) (if-true (is_refl token) _ _)

-- A login token that was made at the time `at`, through calls that neither make nor revoke it and
-- clean up at the latest now, is valid, for its user, exactly up to the expiry. Once revoked it is not
-- valid, through such calls again.
pub valid_until :
    (token username : String) (at now : ℕ) (xs ys : List Call) (tm : SecureTokenManager)
    → all_spare token now xs ≡ true
    → all_spare token now ys ≡ true
    → let tm' = calls xs (generate_token (some token) username at tm).0 in
      (validate_token token now tm' ≡ (
        if ltb (at + tm.token_expiry) now
        then none
        else some (record { username = username; expires_at = at + tm.token_expiry })))
      × (validate_token token now (calls ys (revoke_token token tm')) ≡ none)
valid_until token username at now xs ys tm h k =
    let tm₁ = (generate_token (some token) username at tm).0 in
    (
      validate_token-calls token now xs tm₁ h
          ∙ validate_token-generate_token token username at now tm,
      validate_token-calls token now ys (revoke_token token (calls xs tm₁)) k
          ∙ validate_token-revoke_token token now (calls xs tm₁),
    )
