-- ===== src/Tokens/Examples.antt =====
-- The theorems on tokens at concrete values.
use ofelia.Common.{
  ℕ, ◌≡◌, ◌+◌, refl, true, false, not, Option, none, some, List, [], ◌∷◌, ltb, if◌then◌else◌,
}
use ofelia.Tokens.{
  SecureTokenManager, new_secure_token_manager, csrf_expiry, generate_token, validate_token,
  generate_csrf_token, validate_csrf_token, Call, generates, revokes, cleans, generates_csrf,
  validates_csrf, cleans_csrf, calls,
}
use ofelia.Tokens.Csrf.{all_keep_csrf, never_remade, csrf_once}

-- Two hours.
abbrev manager : SecureTokenManager
manager = new_secure_token_manager 2

abbrev before : List Call
before =
    generates (some "token_b") "guest" 20
    ∷ cleans 30
    ∷ revokes "token_b"
    ∷ validates_csrf "token_a" 35
    ∷ []

not_expired :
    validate_token "token_a" 40 (generate_token (some "token_a") "admin" 10 manager).0
    ≡ some (record { username = "admin"; expires_at = 7_200_000_000_010 })
unfolding validate_token generate_token new_secure_token_manager ofelia.Common.◌is◌
not_expired = refl

abbrev between : List Call
between = generates_csrf (some "csrf_b") 20 ∷ validates_csrf "csrf_b" 25 ∷ cleans_csrf 30 ∷ []

csrf_once_example :
    let (tm', ok) =
      validate_csrf_token "csrf_a" 40
        (calls between (generate_csrf_token (some "csrf_a") 10 manager).0) in
    (ok ≡ not (ltb (10 + csrf_expiry) 40))
    × ((validate_csrf_token "csrf_a" 50 (calls (validates_csrf "csrf_a" 45 ∷ []) tm')).1 ≡ false)
unfolding all_keep_csrf never_remade ofelia.Common.◌is◌
csrf_once_example =
    csrf_once "csrf_a" 10 40 50 between (validates_csrf "csrf_a" 45 ∷ []) manager refl refl
