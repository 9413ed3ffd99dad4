-- ===== src/Tokens.antt =====
-- web/auth_secure.go, `SecureTokenManager`: login tokens with an expiry, and CSRF tokens for one use.
-- Times are nanoseconds; the model is of a `tokenExpiry` that is not negative. The methods hold a
-- lock, so each is one step.
pub mod Sessions
pub mod Csrf
mod Examples
use ofelia.Common.{
  ℕ, ◌+◌, ◌*◌, String, Bool, true, false, Option, none, some, List, [], ◌∷◌, ltb, if◌then◌else◌,
  ◌is◌,
}

pub record TokenData : Type 0 where
  pub username : String
  pub expires_at : ℕ

pub record SecureTokenManager : Type 0 where
  pub tokens : String → Option TokenData
  pub token_expiry : ℕ
  pub csrf_tokens : String → Option ℕ

unfoldable pub new_secure_token_manager : ℕ → SecureTokenManager
new_secure_token_manager expiry_hours = record {
  tokens = λ t. none;
  token_expiry = expiry_hours * 3_600_000_000_000;
  csrf_tokens = λ t. none;
}

-- `m[key] = value`, or `delete(m, key)` for `none`.
abbrev pub put : {A : Type 0} → String → Option A → (String → Option A) → String → Option A
put key value m t = if t is key then value else m t

-- `rand` is the encoded random token, `none` where `rand.Read` fails.
unfoldable pub generate_token :
    Option String → String → ℕ → SecureTokenManager → SecureTokenManager × Option String
generate_token none username now tm = (tm, none)
generate_token (some token) username now tm =
    let d : TokenData = record { username = username; expires_at = now + tm.token_expiry } in
    (record tm { tokens = put token (some d) tm.tokens }, some token)

-- The data of a token that is there, unless it has expired.
abbrev unexpired : ℕ → Option TokenData → Option TokenData
unexpired now none = none
unexpired now (some d) = if ltb d.expires_at now then none else some d

unfoldable pub validate_token : String → ℕ → SecureTokenManager → Option TokenData
validate_token token now tm = unexpired now (tm.tokens token)

unfoldable pub revoke_token : String → SecureTokenManager → SecureTokenManager
revoke_token token tm = record tm { tokens = put token none tm.tokens }

unfoldable pub cleanup_expired_tokens : ℕ → SecureTokenManager → SecureTokenManager
cleanup_expired_tokens now tm = record tm { tokens = λ t. unexpired now (tm.tokens t) }

-- One hour, in nanoseconds.
abbrev pub csrf_expiry : ℕ
csrf_expiry = 3_600_000_000_000

unfoldable pub generate_csrf_token :
    Option String → ℕ → SecureTokenManager → SecureTokenManager × Option String
generate_csrf_token none now tm = (tm, none)
generate_csrf_token (some token) now tm =
    (record tm { csrf_tokens = put token (some (now + csrf_expiry)) tm.csrf_tokens }, some token)

-- Expired or not, a token that is there is deleted.
abbrev pub use_csrf : String → ℕ → Option ℕ → SecureTokenManager → SecureTokenManager × Bool
use_csrf token now none tm = (tm, false)
use_csrf token now (some expiry) tm = (
  record tm { csrf_tokens = put token none tm.csrf_tokens },
  if ltb expiry now then false else true,
)

unfoldable pub validate_csrf_token : String → ℕ → SecureTokenManager → SecureTokenManager × Bool
validate_csrf_token token now tm = use_csrf token now (tm.csrf_tokens token) tm

abbrev unexpired_csrf : ℕ → Option ℕ → Option ℕ
unexpired_csrf now none = none
unexpired_csrf now (some expiry) = if ltb expiry now then none else some expiry

unfoldable pub cleanup_expired_csrf_tokens : ℕ → SecureTokenManager → SecureTokenManager
cleanup_expired_csrf_tokens now tm = record tm {
  csrf_tokens = λ t. unexpired_csrf now (tm.csrf_tokens t);
}

-- A call of a method that changes the manager.
pub data Call : Type 0 where
  generates : Option String → String → ℕ → Call
  revokes : String → Call
  cleans : ℕ → Call
  generates_csrf : Option String → ℕ → Call
  validates_csrf : String → ℕ → Call
  cleans_csrf : ℕ → Call

unfoldable pub call : Call → SecureTokenManager → SecureTokenManager
unfolding generate_token revoke_token cleanup_expired_tokens generate_csrf_token validate_csrf_token
    cleanup_expired_csrf_tokens
call (generates rand username now) tm = (generate_token rand username now tm).0
call (revokes token) tm = revoke_token token tm
call (cleans now) tm = cleanup_expired_tokens now tm
call (generates_csrf rand now) tm = (generate_csrf_token rand now tm).0
call (validates_csrf token now) tm = (validate_csrf_token token now tm).0
call (cleans_csrf now) tm = cleanup_expired_csrf_tokens now tm

unfoldable pub calls : List Call → SecureTokenManager → SecureTokenManager
unfolding call
calls [] tm = tm
calls (x ∷ xs) tm = calls xs (call x tm)
