-- ===== src/Retry/Delay.antt =====
-- The delays between the attempts.
use native.Mathlib.Nat.{pow-suc}
use native.Mathlib.Numerals.{add-one}
use ofelia.Common.{ℕ, ◌+◌, ◌*◌, ◌^◌, ◌≤◌, ◌<◌, ◌≡◌, true, false, ℤ, pos, arith, min}
use ofelia.Retry.{RetryConfig, calculate_delay}

-- With exponential backoff, as long as `retry_delay_ms * 2 ^ attempt` fits an `int`, the delay is
-- that product, capped at `retry_max_delay_ms`; without, it is `retry_delay_ms` at every attempt.
pub calculate_delay-eq :
    (out_of_range : ℤ) (config : RetryConfig) (attempt : ℕ)
    → (config.retry_exponential ≡ true
        → config.retry_delay_ms * 2 ^ attempt < 2 ^ 63
        → calculate_delay out_of_range config attempt
          ≡ pos (min (config.retry_delay_ms * 2 ^ attempt) config.retry_max_delay_ms))
      × (config.retry_exponential ≡ false
          → calculate_delay out_of_range config attempt ≡ pos config.retry_delay_ms)
unfolding calculate_delay
calculate_delay-eq out_of_range config attempt = (λ h k. ground arith, λ h. ground arith)

doubled : (d n : ℕ) → d * 2 ^ (n + 1) ≡ 2 * (d * 2 ^ n)
doubled d n = let e : 2 ^ (n + 1) ≡ 2 ^ n * 2 = rw add-one (pow-suc 2 n) in rw e (omega arith)

-- With exponential backoff and while the next product fits an `int`, the next delay is no shorter
-- than this one and no longer than the cap.
pub calculate_delay_mono :
    (out_of_range : ℤ) (config : RetryConfig) (attempt : ℕ)
    → config.retry_exponential ≡ true
    → config.retry_delay_ms * 2 ^ (attempt + 1) < 2 ^ 63
    → (d d' : ℕ) × (calculate_delay out_of_range config attempt ≡ pos d)
      × (calculate_delay out_of_range config (attempt + 1) ≡ pos d')
      × (d ≤ d')
      × (d' ≤ config.retry_max_delay_ms)
calculate_delay_mono out_of_range config attempt h k =
    let d : ℕ = config.retry_delay_ms in
    let m : ℕ = config.retry_max_delay_ms in
    let e = doubled d attempt in
    (
      min (d * 2 ^ attempt) m,
      min (d * 2 ^ (attempt + 1)) m,
      (calculate_delay-eq out_of_range config attempt).0 h (omega arith),
      (calculate_delay-eq out_of_range config (attempt + 1)).0 h k,
      omega arith,
      omega arith,
    )
