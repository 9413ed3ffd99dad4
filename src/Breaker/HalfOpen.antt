-- ===== src/Breaker/HalfOpen.antt =====
-- The half-open state: how many calls it lets through, and when it is never left.
use ofelia.Common.{
  ℕ, ◌+◌, ◌^◌, ◌≤◌, ◌<◌, ◌≡◌, refl, List, [], ◌∷◌, none, some, arith, is_some, if◌then◌else◌,
  length, min, replicate, ap, ◌-◌,
}
use native.Mathlib.Decide.{dec_lt}
use ofelia.Breaker.{
  state_open, state_half_open, CircuitBreaker, Outcome, panics, ExecuteResult, refused,
  circuit_breaker_half_open, before_call, execute, since,
}

-- Calls that pass `beforeCall` one after the other, none of which has ended: how many are let
-- through.
pub admitted : List ℕ → CircuitBreaker → ℕ
admitted [] cb = 0
admitted (now ∷ ts) cb =
    let (cb', refusal) = before_call now cb in (if is_some refusal then 0 else 1) + admitted ts cb'

record Trying (n m : ℕ) (cb : CircuitBreaker) : Type 0 where
  half_open : cb.state ≡ state_half_open
  limit : cb.half_open_max_calls ≡ m
  used : cb.half_open_calls ≡ n

before_call-Trying :
    (now n m : ℕ) (cb : CircuitBreaker)
    → Trying n m cb
    → m < 2 ^ 32
    → n < m
    → Trying (n + 1) m (before_call now cb).0 × ((before_call now cb).1 ≡ none)
unfolding before_call
before_call-Trying now n m cb t h k = ground arith

before_call-full :
    (now n m : ℕ) (cb : CircuitBreaker)
    → Trying n m cb
    → m ≤ n
    → Trying n m (before_call now cb).0 × ((before_call now cb).1 ≡ some circuit_breaker_half_open)
unfolding before_call
before_call-full now n m cb t h = ground arith

admitted-full :
    (ts : List ℕ) (n m : ℕ) (cb : CircuitBreaker) → Trying n m cb → m ≤ n → admitted ts cb ≡ 0
unfolding admitted
admitted-full [] n m cb t h = refl
admitted-full (now ∷ ts) n m cb t h =
    let (t', e) = before_call-full now n m cb t h in
    rw e (omega (arith, admitted-full ts n m (before_call now cb).0 t' h))

admitted-Trying :
    (ts : List ℕ) (n m : ℕ) (cb : CircuitBreaker)
    → Trying n m cb
    → m < 2 ^ 32
    → n ≤ m
    → admitted ts cb ≡ min (length ts) (m - n)
unfolding admitted
admitted-Trying [] n m cb t h k = omega arith
admitted-Trying (now ∷ ts) n m cb t h k = elim (dec_lt n m) [
  | yes below ↦
      let (t', e) = before_call-Trying now n m cb t h below in
      let rest = admitted-Trying ts (n + 1) m (before_call now cb).0 t' h (omega arith) in
      rw e (omega arith)
  | no full ↦ omega (arith, admitted-full (now ∷ ts) n m cb t (omega arith))
]

opens_trial :
    (now : ℕ) (cb : CircuitBreaker)
    → cb.state ≡ state_open
    → cb.reset_timeout < since now cb.last_failure_time
    → Trying 0 cb.half_open_max_calls (before_call now cb).0 × ((before_call now cb).1 ≡ none)
unfolding before_call
opens_trial now cb h t = ground arith

-- An open circuit breaker whose reset timeout is over lets `half_open_max_calls + 1` calls through
-- before one of them has ended, and no more: the call that makes it half-open is not counted.
pub half_open_admits :
    (now : ℕ) (ts : List ℕ) (cb : CircuitBreaker)
    → cb.state ≡ state_open
    → cb.half_open_max_calls < 2 ^ 32
    → cb.reset_timeout < since now cb.last_failure_time
    → admitted (now ∷ ts) cb ≡ min (length ts + 1) (cb.half_open_max_calls + 1)
unfolding admitted
half_open_admits now ts cb h k t =
    let (t', e) = opens_trial now cb h t in
    rw e (omega (arith, admitted-Trying ts 0 cb.half_open_max_calls (before_call now cb).0 t' k))

-- A sequence of calls of `Execute`, each with its two clock readings and what its function does:
-- the results.
pub execute_all : List (ℕ × ℕ × Outcome) → CircuitBreaker → List ExecuteResult
execute_all [] cb = []
execute_all ((start, finish, outcome) ∷ calls) cb =
    let (cb', r) = execute start finish outcome cb in r ∷ execute_all calls cb'

execute-full :
    (start finish n m : ℕ) (outcome : Outcome) (cb : CircuitBreaker)
    → Trying n m cb
    → m ≤ n
    → Trying n m (execute start finish outcome cb).0
      × ((execute start finish outcome cb).1 ≡ refused circuit_breaker_half_open)
unfolding execute
execute-full start finish n m outcome cb t h = rw (t.half_open, execute) (ground arith)

execute_all-full :
    (calls : List (ℕ × ℕ × Outcome)) (n m : ℕ) (cb : CircuitBreaker)
    → Trying n m cb
    → m ≤ n
    → execute_all calls cb ≡ replicate (length calls) (refused circuit_breaker_half_open)
unfolding execute_all
execute_all-full [] n m cb t h = refl
execute_all-full ((start, finish, outcome) ∷ calls) n m cb t h =
    let (t', e) = execute-full start finish n m outcome cb t h in
    rw e (
      ap (◌∷◌ (refused circuit_breaker_half_open))
        (execute_all-full calls n m (execute start finish outcome cb).0 t' h))

two_panics :
    (start finish start' finish' : ℕ) (cb : CircuitBreaker)
    → cb.state ≡ state_open
    → cb.half_open_max_calls ≡ 1
    → cb.reset_timeout < since start cb.last_failure_time
    → Trying 1 1 (execute start' finish' panics (execute start finish panics cb).0).0
unfolding execute
two_panics start finish start' finish' cb h k t = ground arith

-- If the two trial calls that a half-open circuit breaker lets through panic, it refuses every
-- later call, however much time passes and whatever the call would do.
pub panics_wedge :
    (start finish start' finish' : ℕ) (calls : List (ℕ × ℕ × Outcome)) (cb : CircuitBreaker)
    → cb.state ≡ state_open
    → cb.half_open_max_calls ≡ 1
    → cb.reset_timeout < since start cb.last_failure_time
    → let cb' = (execute start' finish' panics (execute start finish panics cb).0).0 in
      execute_all calls cb' ≡ replicate (length calls) (refused circuit_breaker_half_open)
panics_wedge start finish start' finish' calls cb h k t =
    execute_all-full calls 1 1 _ (two_panics start finish start' finish' cb h k t) (omega arith)
