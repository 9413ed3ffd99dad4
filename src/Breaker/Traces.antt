-- ===== src/Breaker/Traces.antt =====
-- The circuit breaker under concurrent callers: `beforeCall` and `afterCall` hold the mutex, and the
-- functions run between them in any order.
use ofelia.Common.{ℕ, ◌+◌, ◌≤◌, ◌<◌, String, ◌≡◌, Bool, none, some, arith, ◌∙◌}
use ofelia.Breaker.{
  CircuitBreakerState, state_closed, state_open, state_half_open, CircuitBreaker, BreakerError,
  new_circuit_breaker, before_call, after_call, u64,
}
use ofelia.Breaker.Invariant.{IsValid, new-IsValid, before_call-IsValid, after_call-IsValid}

-- The breaker with what its callers are doing: calls in flight, refused and panicked, and the
-- calls let through since it last left the open state.
pub record System : Type 0 where
  pub breaker : CircuitBreaker
  pub in_flight : ℕ
  pub refused : ℕ
  pub panicked : ℕ
  pub trials : ℕ

abbrev count_trials : CircuitBreakerState → ℕ → ℕ
count_trials state_closed n = n
count_trials state_open n = 1
count_trials state_half_open n = n + 1

pub data Step : System → System → Type 0 where
  let_in :
      (s : System) (now : ℕ)
      → (before_call now s.breaker).1 ≡ none
      → Step s (record s {
        breaker = (before_call now s.breaker).0;
        in_flight = s.in_flight + 1;
        trials = count_trials s.breaker.state s.trials;
      })
  turn_away :
      (s : System) (now : ℕ) (e : BreakerError)
      → (before_call now s.breaker).1 ≡ some e
      → Step s (record s { breaker = (before_call now s.breaker).0; refused = s.refused + 1 })
  return :
      (s : System) (now : ℕ) (success : Bool) (n : ℕ)
      → s.in_flight ≡ n + 1
      → Step s (record s { breaker = after_call success now s.breaker; in_flight = n })
  panic :
      (s : System) (n : ℕ)
      → s.in_flight ≡ n + 1
      → Step s (record s { in_flight = n; panicked = s.panicked + 1 })

abbrev pub start : String → ℕ → ℕ → System
start name m d = record {
  breaker = new_circuit_breaker name m d;
  in_flight = 0;
  refused = 0;
  panicked = 0;
  trials = 0;
}

pub data Reach (name : String) (m d : ℕ) : System → Type 0 where
  here : Reach name m d (start name m d)
  next : {s t : System} → Reach name m d s → Step s t → Reach name m d t

record Inv (m : ℕ) (s : System) : Type 0 where
  valid : IsValid s.breaker
  limit : s.breaker.max_failures ≡ m
  accounted :
      s.breaker.total_calls
      ≡ u64 (
          s.breaker.total_successes + s.breaker.total_failures + s.in_flight + s.refused
          + s.panicked)
  bounded : s.breaker.state ≡ state_half_open → s.trials ≤ s.breaker.half_open_calls + 1

Inv-start : (name : String) (m d : ℕ) → Inv m (start name m d)
unfolding new_circuit_breaker
Inv-start name m d = ground (arith, new-IsValid name m d)

let_in-accounted :
    (now : ℕ) (cb : CircuitBreaker)
    → ((before_call now cb).0.total_calls ≡ u64 (cb.total_calls + 1))
      × ((before_call now cb).0.total_successes ≡ cb.total_successes)
      × ((before_call now cb).0.total_failures ≡ cb.total_failures)
      × ((before_call now cb).0.max_failures ≡ cb.max_failures)
unfolding before_call
let_in-accounted now cb = ground arith

let_in-bounded :
    (now n : ℕ) (cb : CircuitBreaker)
    → IsValid cb
    → (before_call now cb).1 ≡ none
    → (cb.state ≡ state_half_open → n ≤ cb.half_open_calls + 1)
    → (before_call now cb).0.state ≡ state_half_open
    → count_trials cb.state n ≤ (before_call now cb).0.half_open_calls + 1
unfolding before_call
let_in-bounded now n cb v e h q = ground arith

refused-bounded :
    (now n : ℕ) (e : BreakerError) (cb : CircuitBreaker)
    → (before_call now cb).1 ≡ some e
    → (cb.state ≡ state_half_open → n ≤ cb.half_open_calls + 1)
    → (before_call now cb).0.state ≡ state_half_open
    → n ≤ (before_call now cb).0.half_open_calls + 1
unfolding before_call
refused-bounded now n e cb p h q = ground arith

return-accounted :
    (success : Bool) (now n : ℕ) (cb : CircuitBreaker)
    → ((after_call success now cb).total_calls ≡ cb.total_calls)
      × (u64 (
            (after_call success now cb).total_successes
            + (after_call success now cb).total_failures
            + n)
          ≡ u64 (cb.total_successes + cb.total_failures + (n + 1)))
      × ((after_call success now cb).max_failures ≡ cb.max_failures)
unfolding after_call
return-accounted success now n cb = ground arith

return-bounded :
    (success : Bool) (now n : ℕ) (cb : CircuitBreaker)
    → (cb.state ≡ state_half_open → n ≤ cb.half_open_calls + 1)
    → (after_call success now cb).state ≡ state_half_open
    → n ≤ (after_call success now cb).half_open_calls + 1
unfolding after_call
return-bounded success now n cb h q = ground arith

Step-Inv : {m : ℕ} {s t : System} → Step s t → Inv m s → Inv m t
Step-Inv (let_in s now e) v =
    let (calls, good, bad, limit) = let_in-accounted now s.breaker in
    record {
      valid = before_call-IsValid now s.breaker v.valid;
      limit = limit ∙ v.limit;
      accounted = omega arith;
      bounded = let_in-bounded now s.trials s.breaker v.valid e v.bounded;
    }
Step-Inv (turn_away s now x e) v =
    let (calls, good, bad, limit) = let_in-accounted now s.breaker in
    record {
      valid = before_call-IsValid now s.breaker v.valid;
      limit = limit ∙ v.limit;
      accounted = omega arith;
      bounded = refused-bounded now s.trials x s.breaker e v.bounded;
    }
Step-Inv (return s now success n e) v =
    let (calls, kept, limit) =
      return-accounted success now (n + s.refused + s.panicked) s.breaker in
    record {
      valid = after_call-IsValid success now s.breaker v.valid;
      limit = limit ∙ v.limit;
      accounted = omega arith;
      bounded = return-bounded success now s.trials s.breaker v.bounded;
    }
Step-Inv (panic s n e) v = record {
  valid = v.valid;
  limit = v.limit;
  accounted = omega arith;
  bounded = v.bounded;
}

Reach-Inv : {name : String} {m d : ℕ} {s : System} → Reach name m d s → Inv m s
Reach-Inv {name} {m} {d} here = Inv-start name m d
Reach-Inv (next r st) = Step-Inv st (Reach-Inv r)

-- However the calls interleave, the counter of calls is, modulo 2^64, the successes and failures
-- counted with the calls in flight, those refused and those that panicked.
pub calls_accounted :
    {name : String} {m d : ℕ} {s : System}
    → Reach name m d s
    → s.breaker.total_calls
      ≡ u64 (
          s.breaker.total_successes + s.breaker.total_failures + s.in_flight + s.refused
          + s.panicked)
calls_accounted r = (Reach-Inv r).accounted

-- However the calls interleave, a circuit breaker that is half-open has let at most two calls
-- through since it left the open state.
pub half_open_trials :
    {name : String} {m d : ℕ} {s : System}
    → Reach name m d s
    → s.breaker.state ≡ state_half_open
    → s.trials ≤ 2
half_open_trials r h = let v = Reach-Inv r in ground arith

-- However the calls interleave, a circuit breaker with a positive limit that is closed has counted
-- fewer failures than the limit.
pub closed_below_limit :
    {name : String} {m d : ℕ} {s : System}
    → Reach name m d s
    → 0 < m
    → s.breaker.state ≡ state_closed
    → s.breaker.failures < m
closed_below_limit r p h = let v = Reach-Inv r in ground arith
