-- ===== src/RateLimit.antt =====
-- web/middleware.go, `rateLimiter`: at most so many requests of one address within a window of time.
-- Times are nanoseconds on the monotonic clock. The model is of a limit and a window that are not
-- negative, and begins here after the address of the client is known; `Clients` has how it is found.
pub mod Calls
pub mod Window
pub mod Clients
pub mod Spoofing
mod Examples
use ofelia.Common.{
  ℕ, ◌+◌, String, Bool, true, false, List, [], ◌∷◌, ◌++◌, length, ltb, leb, if◌then◌else◌, ◌is◌,
}

-- A missing key is the empty list.
pub record RateLimiter : Type 0 where
  pub requests : String → List ℕ
  pub limit : ℕ
  pub window : ℕ

unfoldable pub new_rate_limiter : ℕ → ℕ → RateLimiter
new_rate_limiter limit window = record { requests = λ ip. []; limit = limit; window = window }

-- The loops that keep the requests within the window.
unfoldable pub keep_recent : ℕ → ℕ → List ℕ → List ℕ
keep_recent window now [] = []
keep_recent window now (t ∷ ts) =
    let rest = keep_recent window now ts in if ltb now (t + window) then t ∷ rest else rest

unfoldable pub cleanup : ℕ → RateLimiter → RateLimiter
unfolding keep_recent
cleanup now rl = record rl { requests = λ ip. keep_recent rl.window now (rl.requests ip) }

-- The rest of `middleware`, on the requests within the window: whether the next handler is called.
abbrev pub decide : String → ℕ → List ℕ → RateLimiter → RateLimiter × Bool
decide ip now valid rl =
    if leb rl.limit (length valid)
    then (rl, false)
    else (record rl { requests = λ k. if k is ip then valid ++ now ∷ [] else rl.requests k }, true)

-- `middleware`, from the address on.
unfoldable pub request : String → ℕ → RateLimiter → RateLimiter × Bool
unfolding keep_recent
request ip now rl = decide ip now (keep_recent rl.window now (rl.requests ip)) rl
