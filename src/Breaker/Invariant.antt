-- ===== src/Breaker/Invariant.antt =====
-- What holds of a circuit breaker between two calls of its methods.
use ofelia.Common.{ℕ, ◌≤◌, ◌<◌, ◌^◌, String, ◌≡◌, ◌⊎◌, Bool, true, arith, is_some}
use ofelia.Breaker.{
  state_closed, state_open, state_half_open, CircuitBreaker, new_circuit_breaker, before_call,
  after_call,
}

pub record IsValid (cb : CircuitBreaker) : Type 0 where
  pub one_trial : cb.half_open_max_calls ≡ 1
  pub in_range : cb.failures < 2 ^ 32
  pub below : cb.state ≡ state_closed → (cb.failures < cb.max_failures) ⊎ (cb.failures ≡ 0)
  pub trials : cb.half_open_calls ≤ 1
  pub trying : (cb.state ≡ state_half_open) ⊎ (cb.half_open_calls ≡ 0)
  pub no_success : cb.success_count ≡ 0
  pub opened : cb.state ≡ state_open → is_some cb.last_opened_at ≡ true
  pub failed_before : cb.state ≡ state_open → is_some cb.last_failure_time ≡ true

pub new-IsValid : (name : String) (m d : ℕ) → IsValid (new_circuit_breaker name m d)
unfolding new_circuit_breaker
new-IsValid name m d = ground arith

pub before_call-IsValid :
    (now : ℕ) (cb : CircuitBreaker) → IsValid cb → IsValid (before_call now cb).0
unfolding before_call
before_call-IsValid now cb v = ground arith

pub after_call-IsValid :
    (ok : Bool) (now : ℕ) (cb : CircuitBreaker) → IsValid cb → IsValid (after_call ok now cb)
unfolding after_call
after_call-IsValid ok now cb v = ground arith
