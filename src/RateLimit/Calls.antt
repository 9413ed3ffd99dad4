-- ===== src/RateLimit/Calls.antt =====
-- Sequences of requests and cleanups of `rateLimiter`, with the times of the requests that were let
-- through; and keeping what is recent, twice or on lists put together.
use ofelia.Common.{
  ℕ, ◌≤◌, String, Bool, ◌&&◌, ◌≡◌, refl, List, [], ◌∷◌, ◌++◌, length, leb, if◌then◌else◌, ◌is◌,
  arith,
}
use ofelia.RateLimit.{RateLimiter, new_rate_limiter, keep_recent, cleanup, request}

pub data Call : Type 0 where
  asks : String → ℕ → Call
  cleans : ℕ → Call

abbrev pub time : Call → ℕ
time (asks ip t) = t
time (cleans t) = t

-- Whether the times never fall, from the first one given to the last one given.
unfoldable pub in_order : ℕ → List Call → ℕ → Bool
in_order from [] to = leb from to
in_order from (x ∷ xs) to = leb from (time x) && in_order (time x) xs to

-- The limiter, and the times of the requests let through so far, for each address.
pub record Logged : Type 0 where
  pub limiter : RateLimiter
  pub let_through : String → List ℕ

abbrev pub after_request : String → ℕ → RateLimiter × Bool → (String → List ℕ) → Logged
after_request ip t (rl, passed) log = record {
  limiter = rl;
  let_through = λ k. if passed && (k is ip) then log k ++ t ∷ [] else log k;
}

unfoldable pub call : Call → Logged → Logged
call (asks ip t) s = after_request ip t (request ip t s.limiter) s.let_through
call (cleans t) s = record s { limiter = cleanup t s.limiter }

unfoldable pub calls : List Call → Logged → Logged
unfolding call
calls [] s = s
calls (x ∷ xs) s = calls xs (call x s)

abbrev pub fresh : ℕ → ℕ → Logged
fresh limit window = record { limiter = new_rate_limiter limit window; let_through = λ k. [] }

pub keep_recent-append :
    (w now : ℕ) (xs ys : List ℕ)
    → keep_recent w now (xs ++ ys) ≡ keep_recent w now xs ++ keep_recent w now ys
unfolding keep_recent
keep_recent-append w now [] ys = refl
keep_recent-append w now (x ∷ xs) ys = ground (arith, keep_recent-append w now xs ys)

pub keep_recent-keep_recent :
    (w t now : ℕ) (xs : List ℕ)
    → t ≤ now
    → keep_recent w now (keep_recent w t xs) ≡ keep_recent w now xs
unfolding keep_recent
keep_recent-keep_recent w t now [] h = refl
keep_recent-keep_recent w t now (x ∷ xs) h = ground (arith, keep_recent-keep_recent w t now xs h)

pub length-keep_recent :
    (w t now : ℕ) (xs : List ℕ)
    → t ≤ now
    → length (keep_recent w now xs) ≤ length (keep_recent w t xs)
unfolding keep_recent
length-keep_recent w t now [] h = omega arith
length-keep_recent w t now (x ∷ xs) h = ground (arith, length-keep_recent w t now xs h)

pub length-keep_recent_one : (w now t : ℕ) → length (keep_recent w now (t ∷ [])) ≤ 1
unfolding keep_recent
length-keep_recent_one w now t = ground arith
