-- ===== src/Resilience.antt =====
-- core/resilience.go, the token bucket `RateLimiter` and `Retry`; and core/resilient_job.go,
-- `ResilientJobExecutor`, which puts these two around a job, with a circuit breaker and a bulkhead.
--
-- The bucket is modelled for a whole number of tokens per second, as the executor has it. Tokens are
-- counted in billionths, so that the refill of a number of nanoseconds is a natural number.
pub mod Errors
pub mod Bucket
pub mod Waiting
pub mod Attempts
pub mod Executor
mod Examples
use ofelia.Common.{
  ℕ, zero, suc, ◌+◌, ◌-◌, ◌*◌, ◌/◌, String, Bool, true, false, not, Option, none, some, List, [],
  ◌∷◌, min, ltb, leb, ◌==◌, if◌then◌else◌, concat, ℤ, pos_part,
}
use ofelia.Breaker.{
  CircuitBreaker, BreakerError, Outcome, succeeds, fails, panics, ExecuteResult, passed, fn_failed,
  fn_panicked, refused, new_circuit_breaker,
}
use ofelia.Breaker
use ofelia.Bulkhead.{
  Bulkhead, new_bulkhead, take_slot, count_in, free_slot, count_out, complete, reject,
}

abbrev pub billion : ℕ
billion = 1000000000

-- `tokens` in billionths, times in nanoseconds, `rate` in tokens per second.
pub record TokenBucket : Type 0 where
  pub rate : ℕ
  pub capacity : ℕ
  pub tokens : ℕ
  pub last_refill : ℕ

unfoldable pub new_token_bucket : ℕ → ℕ → ℕ → TokenBucket
new_token_bucket rate capacity now = record {
  rate = rate;
  capacity = capacity;
  tokens = capacity * billion;
  last_refill = now;
}

unfoldable pub refill : ℕ → TokenBucket → TokenBucket
refill now rl = record rl {
  tokens = min (rl.tokens + (now - rl.last_refill) * rl.rate) (rl.capacity * billion);
  last_refill = now;
}

-- `AllowN`, on the bucket that is refilled.
abbrev pub take_tokens : ℕ → TokenBucket → TokenBucket × Bool
take_tokens n rl =
    if leb (n * billion) rl.tokens
    then (record rl { tokens = rl.tokens - n * billion }, true)
    else (rl, false)

unfoldable pub allow_n : ℕ → ℕ → TokenBucket → TokenBucket × Bool
unfolding refill
allow_n n now rl = take_tokens n (refill now rl)

-- How a wait for tokens ends; `still_waiting` if it does not within the readings.
pub data WaitEnd : Type 0 where
  allowed : WaitEnd
  exceeds_capacity : WaitEnd
  canceled : WaitEnd
  still_waiting : WaitEnd

-- The loop of `WaitN`: each reading of the clock is `none` if the context has ended instead.
unfoldable pub wait_loop : ℕ → List (Option ℕ) → TokenBucket → TokenBucket × WaitEnd
unfolding allow_n
wait_loop n [] rl = (rl, still_waiting)
wait_loop n (none ∷ readings) rl = (rl, canceled)
wait_loop n (some now ∷ readings) rl =
    let (rl', ok) = allow_n n now rl in
    let later = wait_loop n readings rl' in if ok then (rl', allowed) else later

-- The first attempt is at the time `now`.
unfoldable pub wait_n : ℕ → ℕ → List (Option ℕ) → TokenBucket → TokenBucket × WaitEnd
unfolding wait_loop
wait_n n now readings rl =
    if ltb rl.capacity n then (rl, exceeds_capacity) else wait_loop n (some now ∷ readings) rl

-- `backed_off` is the product with the backoff factor, and `jittered` the time that is waited for
-- a delay.
pub record RetryPolicy (E : Type 0) : Type 0 where
  pub max_attempts : ℤ
  pub initial_delay : ℕ
  pub max_delay : ℕ
  pub backed_off : ℕ → ℕ
  pub jittered : ℕ → ℕ
  pub retryable_errors : E → Bool

-- What one run of the function does.
pub data FnEnd (E : Type 0) : Type 0 where
  fn_passes : FnEnd E
  fn_fails : E → FnEnd E
  fn_panics : FnEnd E

pub data RetryEnd (E : Type 0) : Type 0 where
  retry_passed : RetryEnd E
  non_retryable : E → RetryEnd E
  retry_canceled : RetryEnd E
  exceeded : Option E → RetryEnd E
  retry_panicked : RetryEnd E

pub record Retried (E : Type 0) : Type 0 where
  pub end : RetryEnd E
  pub runs : ℕ
  pub sleeps : List ℕ

module _ {E : Type 0} where
  -- One more run before, and a wait after it.
  abbrev pub one_more : ℕ → Retried E → Retried E
  one_more sleep r = record r { runs = r.runs + 1; sleeps = sleep ∷ r.sleeps }

  abbrev pub only_run : RetryEnd E → Retried E
  only_run end = record { end = end; runs = 1; sleeps = [] }

  -- What follows a run that is not the last one; `rest` is the rest of the loop.
  abbrev pub after_run : RetryPolicy E → FnEnd E → Bool → Bool → ℕ → Retried E → Retried E
  after_run p fn_passes last interrupted sleep rest = only_run retry_passed
  after_run p fn_panics last interrupted sleep rest = only_run retry_panicked
  after_run p (fn_fails e) last interrupted sleep rest =
      if not (p.retryable_errors e)
      then only_run (non_retryable e)
      else if last
      then only_run (exceeded (some e))
      else if interrupted
      then record { end = retry_canceled; runs = 1; sleeps = sleep ∷ [] }
      else one_more sleep rest

  -- The loop of `Retry`, on the attempts that are left: `fn` and `interrupted` tell what the run of
  -- each attempt does and whether the context ends in the wait after it.
  unfoldable pub retry_loop : RetryPolicy E → (ℕ → FnEnd E) → (ℕ → Bool) → ℕ → ℕ → ℕ → Retried E
  retry_loop p fn interrupted zero attempt delay = record {
    end = exceeded none;
    runs = 0;
    sleeps = [];
  }
  retry_loop p fn interrupted (suc left) attempt delay =
      let rest =
        retry_loop p fn interrupted left (attempt + 1) (min (p.backed_off delay) p.max_delay) in
      after_run p (fn attempt) (left == 0) (interrupted attempt) (p.jittered delay) rest

  unfoldable pub retry : RetryPolicy E → (ℕ → FnEnd E) → (ℕ → Bool) → Retried E
  unfolding retry_loop
  retry p fn interrupted = retry_loop p fn interrupted (pos_part p.max_attempts) 1 p.initial_delay

-- What the circuit breaker sees of the retries.
abbrev pub outcome_of : {E : Type 0} → RetryEnd E → Outcome
outcome_of retry_passed = succeeds
outcome_of retry_panicked = panics
outcome_of _ = fails

pub record ResilientJobExecutor : Type 0 where
  pub rate_limiter : TokenBucket
  pub bulkhead : Bulkhead
  pub circuit_breaker : CircuitBreaker

-- The values of `NewResilientJobExecutor`, for a job of that name.
unfoldable pub new_resilient_job_executor : String → ℕ → ResilientJobExecutor
unfolding new_token_bucket
new_resilient_job_executor name now = record {
  rate_limiter = new_token_bucket 1 10 now;
  bulkhead = new_bulkhead (concat "job_" name) 3;
  circuit_breaker = new_circuit_breaker (concat "job_" name) 5 30000000000;
}

pub data ExecutorEnd (E : Type 0) : Type 0 where
  rate_limited : ExecutorEnd E
  bulkhead_full : ExecutorEnd E
  breaker_refused : BreakerError → ExecutorEnd E
  ended : RetryEnd E → ExecutorEnd E

-- The result, the number of runs of the job, and what is recorded of the success of the execution.
pub record Executed (E : Type 0) : Type 0 where
  pub executor : ResilientJobExecutor
  pub end : ExecutorEnd E
  pub runs : ℕ
  pub recorded : Option Bool

-- The deferred function of the bulkhead, which a panic runs too.
abbrev pub release : Bulkhead → Bulkhead
release b = complete (count_out (free_slot b))

-- Behind the rate limiter, in the bulkhead, whose context is new and has not ended: the call of the circuit breaker, whose function is the
-- retries.
module _ {E : Type 0} where
  abbrev pub is_success : ExecutorEnd E → Bool
  is_success (ended retry_passed) = true
  is_success _ = false

  -- With a recorder set, the metrics are recorded unless the job panicked.
  abbrev pub recorded_of : ExecutorEnd E → Option Bool
  recorded_of (ended retry_panicked) = none
  recorded_of end = some (is_success end)

  abbrev pub after_breaker :
      ResilientJobExecutor → Retried E → CircuitBreaker × ExecuteResult → Executed E
  after_breaker rje r (cb, refused e) = record {
    executor = record rje { circuit_breaker = cb; bulkhead = release rje.bulkhead };
    end = breaker_refused e;
    runs = 0;
    recorded = some false;
  }
  after_breaker rje r (cb, result) = record {
    executor = record rje { circuit_breaker = cb; bulkhead = release rje.bulkhead };
    end = ended r.end;
    runs = r.runs;
    recorded = recorded_of (ended r.end);
  }

  unfoldable pub execute_in_bulkhead :
      RetryPolicy E → (ℕ → FnEnd E) → (ℕ → Bool) → ℕ → ℕ → ResilientJobExecutor → Executed E
  unfolding retry Breaker.execute
  execute_in_bulkhead p fn interrupted start finish rje =
      if ltb rje.bulkhead.slots rje.bulkhead.max_concurrent
      then (let r = retry p fn interrupted in
          let inside = record rje { bulkhead = count_in (take_slot rje.bulkhead) } in
          after_breaker inside r
            (Breaker.execute start finish (outcome_of r.end) rje.circuit_breaker))
      else record {
        executor = record rje { bulkhead = reject rje.bulkhead };
        end = bulkhead_full;
        runs = 0;
        recorded = some false;
      }

  -- `Execute` at the time `start`; the function of the circuit breaker ends at `finish`.
  unfoldable pub execute_job :
      RetryPolicy E → (ℕ → FnEnd E) → (ℕ → Bool) → ℕ → ℕ → ResilientJobExecutor → Executed E
  unfolding allow_n execute_in_bulkhead
  execute_job p fn interrupted start finish rje =
      let (rl, ok) = allow_n 1 start rje.rate_limiter in
      let rje' = record rje { rate_limiter = rl } in
      if ok
      then execute_in_bulkhead p fn interrupted start finish rje'
      else record { executor = rje'; end = rate_limited; runs = 0; recorded = none }
