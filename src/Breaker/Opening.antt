-- ===== src/Breaker/Opening.antt =====
-- The circuit breaker used by one caller at a time: when it opens, what an open one does, and how
-- it recovers.
use ofelia.Common.{
  ℕ, ◌+◌, ◌^◌, ◌≤◌, ◌<◌, String, ◌≡◌, List, [], ◌∷◌, some, arith, leb, if◌then◌else◌, length,
}
use ofelia.Breaker.{
  state_closed, state_open, CircuitBreaker, Outcome, succeeds, fails, panics, passed, fn_failed,
  refused, circuit_breaker_open, new_circuit_breaker, execute, since, u64,
}

-- Calls of `Execute` one after the other whose function returns an error, each with the clock
-- before and after it.
pub fail_all : List (ℕ × ℕ) → CircuitBreaker → CircuitBreaker
fail_all [] cb = cb
fail_all ((start, finish) ∷ ts) cb = fail_all ts (execute start finish fails cb).0

record Counts (m n : ℕ) (cb : CircuitBreaker) : Type 0 where
  closed : cb.state ≡ state_closed
  limit : cb.max_failures ≡ m
  counted : cb.failures ≡ n

execute_fails-Counts :
    (start finish m n : ℕ) (cb : CircuitBreaker)
    → Counts m n cb
    → m < 2 ^ 32
    → n + 1 < m
    → Counts m (n + 1) (execute start finish fails cb).0
unfolding execute
execute_fails-Counts start finish m n cb c h k = ground arith

fail_all-Counts :
    (ts : List (ℕ × ℕ)) (m n : ℕ) (cb : CircuitBreaker)
    → Counts m n cb
    → m < 2 ^ 32
    → n + length ts < m
    → Counts m (n + length ts) (fail_all ts cb)
unfolding fail_all
fail_all-Counts [] m n cb c h k = ground arith
fail_all-Counts ((start, finish) ∷ ts) m n cb c h k =
    let step = execute_fails-Counts start finish m n cb c h (omega arith) in
    let rest =
      fail_all-Counts ts m (n + 1) (execute start finish fails cb).0 step h (omega arith) in
    ground arith

last_failure :
    (start finish m n : ℕ) (cb : CircuitBreaker)
    → Counts m n cb
    → n + 1 < 2 ^ 32
    → let cb' = (execute start finish fails cb).0 in
      (cb'.state ≡ (if leb m (n + 1) then state_open else state_closed))
      × (cb'.last_failure_time ≡ some finish)
unfolding execute
last_failure start finish m n cb c h = ground arith

-- A new circuit breaker with a limit below 2^32 stays closed through fewer consecutive failures
-- than its limit, and counts them. The next failure opens it exactly if it is the one that reaches
-- the limit, and its time is what the reset timeout will run from.
pub opens_at_limit :
    (name : String) (m d : ℕ) (ts : List (ℕ × ℕ)) (start finish : ℕ)
    → m < 2 ^ 32
    → length ts < m
    → let cb = fail_all ts (new_circuit_breaker name m d) in
      let cb' = (execute start finish fails cb).0 in
      (cb.state ≡ state_closed)
      × (cb.failures ≡ length ts)
      × (cb'.state ≡ (if leb m (length ts + 1) then state_open else state_closed))
      × (cb'.last_failure_time ≡ some finish)
unfolding new_circuit_breaker
opens_at_limit name m d ts start finish h k =
    let cb = new_circuit_breaker name m d in
    let c = fail_all-Counts ts m 0 cb (ground arith) h (omega arith) in
    let l = last_failure start finish m (0 + length ts) (fail_all ts cb) c (omega arith) in
    ground arith

-- A closed circuit breaker runs every call, and a success forgets the failures before it.
pub success_resets :
    (start finish : ℕ) (cb : CircuitBreaker)
    → cb.state ≡ state_closed
    → let r = execute start finish succeeds cb in
      (r.1 ≡ passed) × (r.0.state ≡ state_closed) × (r.0.failures ≡ 0)
unfolding execute
success_resets start finish cb h = ground arith

-- While no more than the reset timeout has passed since the last failure, an open circuit breaker
-- refuses the call, whatever it would do, and changes nothing but the counter of calls.
pub open_refuses :
    (start finish : ℕ) (outcome : Outcome) (cb : CircuitBreaker)
    → cb.state ≡ state_open
    → since start cb.last_failure_time ≤ cb.reset_timeout
    → execute start finish outcome cb
      ≡ (record cb { total_calls = u64 (cb.total_calls + 1) }, refused circuit_breaker_open)
unfolding execute
open_refuses start finish succeeds cb h k = ground arith
open_refuses start finish fails cb h k = ground arith
open_refuses start finish panics cb h k = ground arith

-- Once the reset timeout is over, the next call is run as a trial: a success closes the circuit
-- breaker with no failures counted, and a failure opens it again from the time of that failure.
pub trial_decides :
    (start finish : ℕ) (cb : CircuitBreaker)
    → cb.state ≡ state_open
    → cb.half_open_max_calls ≡ 1
    → cb.reset_timeout < since start cb.last_failure_time
    → let good = execute start finish succeeds cb in
      let bad = execute start finish fails cb in
      (good.1 ≡ passed)
      × (good.0.state ≡ state_closed)
      × (good.0.failures ≡ 0)
      × (bad.1 ≡ fn_failed)
      × (bad.0.state ≡ state_open)
      × (bad.0.last_failure_time ≡ some finish)
unfolding execute
trial_decides start finish cb h k t = ground arith
