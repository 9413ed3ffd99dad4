-- ===== src/Breaker.antt =====
-- core/resilience.go, the circuit breaker: the states, the record, `beforeCall`, `afterCall` with
-- `onSuccess` and `onFailure`, the three transitions, and `Execute`.
-- A method that mutates `*CircuitBreaker` returns the new record. Times are readings of the
-- monotonic clock in nanoseconds, and each call of a method is given the one that it reads.
pub mod Invariant
pub mod Opening
pub mod HalfOpen
pub mod Traces
mod Examples
use ofelia.Common.{
  ℕ, ◌+◌, ◌-◌, ◌%◌, ◌^◌, String, Bool, true, false, Option, none, some, ltb, leb, if◌then◌else◌,
  min,
}

pub data CircuitBreakerState : Type 0 where
  state_closed state_open state_half_open : CircuitBreakerState

-- `uint32` and `uint64` counters wrap.
abbrev pub u32 : ℕ → ℕ
u32 n = n % 2 ^ 32

abbrev pub u64 : ℕ → ℕ
u64 n = n % 2 ^ 64

-- The largest `time.Duration`.
abbrev pub max_duration : ℕ
max_duration = 2 ^ 63 - 1

-- The zero `time.Time` is `none`: it lies more than the largest duration back, at which
-- `time.Since` saturates.
pub record CircuitBreaker : Type 0 where
  pub name : String
  pub max_failures : ℕ
  pub reset_timeout : ℕ
  pub half_open_max_calls : ℕ
  pub state : CircuitBreakerState
  pub failures : ℕ
  pub last_failure_time : Option ℕ
  pub success_count : ℕ
  pub half_open_calls : ℕ
  pub total_calls : ℕ
  pub total_failures : ℕ
  pub total_successes : ℕ
  pub last_opened_at : Option ℕ
  pub open_duration : ℕ

pub data BreakerError : Type 0 where
  circuit_breaker_open circuit_breaker_half_open : BreakerError

-- `time.Since(t)` read at `now`.
abbrev pub since : ℕ → Option ℕ → ℕ
since now none = max_duration
since now (some t) = min (now - t) max_duration

unfoldable pub new_circuit_breaker : String → ℕ → ℕ → CircuitBreaker
new_circuit_breaker name max_failures reset_timeout = record {
  name = name;
  max_failures = max_failures;
  reset_timeout = reset_timeout;
  half_open_max_calls = 1;
  state = state_closed;
  failures = 0;
  last_failure_time = none;
  success_count = 0;
  half_open_calls = 0;
  total_calls = 0;
  total_failures = 0;
  total_successes = 0;
  last_opened_at = none;
  open_duration = 0;
}

pub transition_to_open : ℕ → CircuitBreaker → CircuitBreaker
transition_to_open now cb = record cb {
  state = state_open;
  last_opened_at = some now;
  failures = 0;
  success_count = 0;
  half_open_calls = 0;
}

-- The sum is kept unbounded: `open_duration` is only reported.
-- `if !cb.lastOpenedAt.IsZero() { cb.openDuration += time.Since(cb.lastOpenedAt) }`
abbrev add_open : ℕ → Option ℕ → ℕ → ℕ
add_open now none d = d
add_open now (some t) d = d + since now (some t)

pub transition_to_half_open : ℕ → CircuitBreaker → CircuitBreaker
transition_to_half_open now cb = record cb {
  state = state_half_open;
  success_count = 0;
  half_open_calls = 0;
  open_duration = add_open now cb.last_opened_at cb.open_duration;
}

pub transition_to_closed : CircuitBreaker → CircuitBreaker
transition_to_closed cb = record cb {
  state = state_closed;
  failures = 0;
  success_count = 0;
  half_open_calls = 0;
}

-- The `switch` of `beforeCall`. The state has no other value, so `default` is never taken.
admit : CircuitBreakerState → ℕ → CircuitBreaker → CircuitBreaker × Option BreakerError
unfolding transition_to_half_open
admit state_closed now cb = (cb, none)
admit state_open now cb =
    if ltb cb.reset_timeout (since now cb.last_failure_time)
    then (transition_to_half_open now cb, none)
    else (cb, some circuit_breaker_open)
admit state_half_open now cb =
    if leb cb.half_open_max_calls cb.half_open_calls
    then (cb, some circuit_breaker_half_open)
    else (record cb { half_open_calls = u32 (cb.half_open_calls + 1) }, none)

unfoldable pub before_call : ℕ → CircuitBreaker → CircuitBreaker × Option BreakerError
unfolding admit
before_call now cb = admit cb.state now (record cb { total_calls = u64 (cb.total_calls + 1) })

-- The `switch` of `onSuccess`.
settle_success : CircuitBreakerState → CircuitBreaker → CircuitBreaker
unfolding transition_to_closed
settle_success state_closed cb = record cb { failures = 0 }
settle_success state_half_open cb =
    let cb' = record cb { success_count = u32 (cb.success_count + 1) } in
    if leb cb'.half_open_max_calls cb'.success_count then transition_to_closed cb' else cb'
settle_success state_open cb = cb

pub on_success : CircuitBreaker → CircuitBreaker
unfolding settle_success
on_success cb =
    settle_success cb.state (record cb { total_successes = u64 (cb.total_successes + 1) })

-- The `switch` of `onFailure`.
settle_failure : CircuitBreakerState → ℕ → CircuitBreaker → CircuitBreaker
unfolding transition_to_open
settle_failure state_closed now cb =
    if leb cb.max_failures cb.failures then transition_to_open now cb else cb
settle_failure state_half_open now cb = transition_to_open now cb
settle_failure state_open now cb = cb

pub on_failure : ℕ → CircuitBreaker → CircuitBreaker
unfolding settle_failure
on_failure now cb = settle_failure cb.state now (record cb {
  total_failures = u64 (cb.total_failures + 1);
  failures = u32 (cb.failures + 1);
  last_failure_time = some now;
})

unfoldable pub after_call : Bool → ℕ → CircuitBreaker → CircuitBreaker
unfolding on_success on_failure
after_call success now cb = if success then on_success cb else on_failure now cb

-- What a call of `fn` does: it returns nil, returns an error, or panics.
pub data Outcome : Type 0 where
  succeeds fails panics : Outcome

pub data ExecuteResult : Type 0 where
  passed fn_failed fn_panicked : ExecuteResult
  refused : BreakerError → ExecuteResult

-- A panic of `fn` unwinds through `Execute` before `afterCall`, which is not deferred.
finish_call : Outcome → ℕ → CircuitBreaker → CircuitBreaker × ExecuteResult
unfolding after_call
finish_call succeeds now cb = (after_call true now cb, passed)
finish_call fails now cb = (after_call false now cb, fn_failed)
finish_call panics now cb = (cb, fn_panicked)

-- `start` is the clock at `beforeCall` and `finish` at `afterCall`; the breaker is not used by
-- others in between (for that see Breaker/Traces).
unfoldable pub execute : ℕ → ℕ → Outcome → CircuitBreaker → CircuitBreaker × ExecuteResult
unfolding before_call finish_call
execute start finish outcome cb =
    let (cb', refusal) = before_call start cb in
    elim refusal [ none ↦ finish_call outcome finish cb' | some e ↦ (cb', refused e) ]
