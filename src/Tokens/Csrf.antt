-- ===== src/Tokens/Csrf.antt =====
-- A CSRF token is good for one use.
use ofelia.Common.{
  ℕ, ◌+◌, String, Bool, true, false, not, ◌&&◌, ◌≡◌, refl, ap, ◌∙◌, Option, none, some, List, [],
  ◌∷◌, ltb, if◌then◌else◌, if-true, if-false, ◌is◌, is_refl, arith,
}
use ofelia.Tokens.{
  SecureTokenManager, csrf_expiry, generate_csrf_token, use_csrf, unexpired_csrf,
  validate_csrf_token, Call, generates, revokes, cleans, generates_csrf, validates_csrf,
  cleans_csrf, call, calls,
}

-- Whether the call neither makes nor uses the token, nor cleans up after the time `now`.
abbrev pub keeps_csrf : String → ℕ → Call → Bool
keeps_csrf token now (generates rand username at) = true
keeps_csrf token now (revokes t) = true
keeps_csrf token now (cleans at) = true
keeps_csrf token now (generates_csrf none at) = true
keeps_csrf token now (generates_csrf (some t) at) = not (token is t)
keeps_csrf token now (validates_csrf t at) = not (token is t)
keeps_csrf token now (cleans_csrf at) = not (ltb now at)

unfoldable pub all_keep_csrf : String → ℕ → List Call → Bool
all_keep_csrf token now [] = true
all_keep_csrf token now (x ∷ xs) = keeps_csrf token now x && all_keep_csrf token now xs

-- Whether the call does not make the token.
abbrev pub not_remade : String → Call → Bool
not_remade token (generates_csrf (some t) at) = not (token is t)
not_remade token x = true

unfoldable pub never_remade : String → List Call → Bool
never_remade token [] = true
never_remade token (x ∷ xs) = not_remade token x && never_remade token xs

-- What a validation at that time returns.
abbrev accepts : ℕ → Option ℕ → Bool
accepts now none = false
accepts now (some expiry) = if ltb expiry now then false else true

use_csrf-accepts :
    (token : String) (now : ℕ) (o : Option ℕ) (tm : SecureTokenManager)
    → (use_csrf token now o tm).1 ≡ accepts now o
use_csrf-accepts token now none tm = refl
use_csrf-accepts token now (some expiry) tm = refl

use_csrf-other :
    (token t : String) (at : ℕ) (o : Option ℕ) (tm : SecureTokenManager)
    → (token is t) ≡ false
    → (use_csrf t at o tm).0.csrf_tokens token ≡ tm.csrf_tokens token
use_csrf-other token t at none tm h = refl
use_csrf-other token t at (some expiry) tm h = if-false h _ _

use_csrf-own :
    (token : String) (at : ℕ) (o : Option ℕ) (tm : SecureTokenManager)
    → tm.csrf_tokens token ≡ o
    → (use_csrf token at o tm).0.csrf_tokens token ≡ none
use_csrf-own token at none tm h = h
use_csrf-own token at (some expiry) tm h = if-true (is_refl token) _ _

accepts-unexpired_csrf :
    (a b : ℕ) (o : Option ℕ) → ltb b a ≡ false → accepts b (unexpired_csrf a o) ≡ accepts b o
accepts-unexpired_csrf a b o h = ground arith

accepts-call :
    (token : String) (now : ℕ) (x : Call) (tm : SecureTokenManager)
    → keeps_csrf token now x ≡ true
    → accepts now ((call x tm).csrf_tokens token) ≡ accepts now (tm.csrf_tokens token)
unfolding call
accepts-call token now (generates none username at) tm h = refl
accepts-call token now (generates (some t) username at) tm h = refl
accepts-call token now (revokes t) tm h = refl
accepts-call token now (cleans at) tm h = refl
accepts-call token now (generates_csrf none at) tm h = refl
accepts-call token now (generates_csrf (some t) at) tm h =
    ap (accepts now) (if-false {b = token is t} (ground arith) _ _)
accepts-call token now (validates_csrf t at) tm h =
    ap (accepts now) (use_csrf-other token t at (tm.csrf_tokens t) tm (ground arith))
accepts-call token now (cleans_csrf at) tm h =
    accepts-unexpired_csrf at now (tm.csrf_tokens token) (ground arith)

accepts-calls :
    (token : String) (now : ℕ) (xs : List Call) (tm : SecureTokenManager)
    → all_keep_csrf token now xs ≡ true
    → accepts now ((calls xs tm).csrf_tokens token) ≡ accepts now (tm.csrf_tokens token)
unfolding calls all_keep_csrf
accepts-calls token now [] tm h = refl
accepts-calls token now (x ∷ xs) tm h =
    accepts-calls token now xs (call x tm) (ground arith)
    ∙ accepts-call token now x tm (ground arith)

absent-use_csrf :
    (token t : String) (at : ℕ) (o : Option ℕ) (tm : SecureTokenManager)
    → tm.csrf_tokens token ≡ none
    → (use_csrf t at o tm).0.csrf_tokens token ≡ none
absent-use_csrf token t at none tm k = k
absent-use_csrf token t at (some expiry) tm k = ground arith

absent-call :
    (token : String) (x : Call) (tm : SecureTokenManager)
    → not_remade token x ≡ true
    → tm.csrf_tokens token ≡ none
    → (call x tm).csrf_tokens token ≡ none
unfolding call
absent-call token (generates none username at) tm h k = k
absent-call token (generates (some t) username at) tm h k = k
absent-call token (revokes t) tm h k = k
absent-call token (cleans at) tm h k = k
absent-call token (generates_csrf none at) tm h k = k
absent-call token (generates_csrf (some t) at) tm h k =
    if-false {b = token is t} (ground arith) _ _ ∙ k
absent-call token (validates_csrf t at) tm h k = absent-use_csrf token t at (tm.csrf_tokens t) tm k
absent-call token (cleans_csrf at) tm h k = ap (unexpired_csrf at) k

absent-calls :
    (token : String) (xs : List Call) (tm : SecureTokenManager)
    → never_remade token xs ≡ true
    → tm.csrf_tokens token ≡ none
    → (calls xs tm).csrf_tokens token ≡ none
unfolding calls never_remade
absent-calls token [] tm h k = k
absent-calls token (x ∷ xs) tm h k =
    absent-calls token xs (call x tm) (ground arith) (absent-call token x tm (ground arith) k)

-- A CSRF token that was made at the time `at`, through calls that neither make nor use it and clean
-- up at the latest now, is accepted exactly up to an hour after `at`. Once it was validated, whatever
-- the outcome, no later validation accepts it, unless it is made again.
pub csrf_once :
    (token : String) (at now later : ℕ) (xs ys : List Call) (tm : SecureTokenManager)
    → all_keep_csrf token now xs ≡ true
    → never_remade token ys ≡ true
    → let (tm', ok) =
        validate_csrf_token token now (calls xs (generate_csrf_token (some token) at tm).0) in
      (ok ≡ not (ltb (at + csrf_expiry) now))
      × ((validate_csrf_token token later (calls ys tm')).1 ≡ false)
unfolding generate_csrf_token validate_csrf_token
csrf_once token at now later xs ys tm h k =
    let tm₁ = (generate_csrf_token (some token) at tm).0 in
    let tm₂ = calls xs tm₁ in
    let tm₃ = (use_csrf token now (tm₂.csrf_tokens token) tm₂).0 in
    (
      use_csrf-accepts token now (tm₂.csrf_tokens token) tm₂
          ∙ accepts-calls token now xs tm₁ h
          ∙ ap (accepts now) (if-true (is_refl token) _ _)
          ∙ ground arith,
      use_csrf-accepts token later ((calls ys tm₃).csrf_tokens token) (calls ys tm₃)
          ∙ ap (accepts later) (
              absent-calls token ys tm₃ k
                (use_csrf-own token now (tm₂.csrf_tokens token) tm₂ refl)),
    )
