-- ===== src/Breaker/Examples.antt =====
-- The theorems on the circuit breaker at concrete values, and runs of it.
use ofelia.Common.{ℕ, ◌+◌, ◌≡◌, refl, List, [], ◌∷◌, some, false, arith, leb, if◌then◌else◌, length}
use ofelia.Breaker.{
  CircuitBreaker, state_closed, state_open, succeeds, fails, passed, new_circuit_breaker, execute,
  before_call, after_call,
}
use ofelia.Breaker.Opening.{fail_all, opens_at_limit}
use ofelia.Breaker.Traces.{System, let_in, return, start, Reach, here, next}

-- Opened by a failure at time 100, with a reset timeout of 30.
abbrev tripped : CircuitBreaker
tripped = record {
  name = "job_backup";
  max_failures = 5;
  reset_timeout = 30;
  half_open_max_calls = 1;
  state = state_open;
  failures = 0;
  last_failure_time = some 100;
  success_count = 0;
  half_open_calls = 0;
  total_calls = 5;
  total_failures = 5;
  total_successes = 0;
  last_opened_at = some 100;
  open_duration = 0;
}

abbrev failing_runs : List (ℕ × ℕ)
failing_runs = (1, 2) ∷ (3, 4) ∷ []

opens_at_limit_example :
    let cb = fail_all failing_runs (new_circuit_breaker "job_backup" 3 30) in
    let cb' = (execute 5 6 fails cb).0 in
    (cb.state ≡ state_closed)
    × (cb.failures ≡ length failing_runs)
    × (cb'.state ≡ (if leb 3 (length failing_runs + 1) then state_open else state_closed))
    × (cb'.last_failure_time ≡ some 6)
opens_at_limit_example =
    opens_at_limit "job_backup" 3 30 failing_runs 5 6 (omega arith) (omega arith)

abbrev one_call : System
one_call = record (start "job_backup" 3 30) {
  breaker = record (start "job_backup" 3 30).breaker { total_calls = 1 };
  in_flight = 1;
}

one_call-Reach : Reach "job_backup" 3 30 one_call
unfolding before_call new_circuit_breaker
one_call-Reach = next here (let_in (start "job_backup" 3 30) 7 refl)

-- Opened by one failure at a limit of 1, and half-open since the time 50.
abbrev failed_call : System
failed_call = record (start "job_backup" 1 30) {
  breaker = after_call false 9 (before_call 7 (new_circuit_breaker "job_backup" 1 30)).0;
}

abbrev trial_call : System
trial_call = record failed_call {
  breaker = (before_call 50 failed_call.breaker).0;
  in_flight = 1;
  trials = 1;
}

trial_call-Reach : Reach "job_backup" 1 30 trial_call
unfolding before_call after_call new_circuit_breaker
trial_call-Reach =
    next (next (next here (let_in (start "job_backup" 1 30) 7 refl)) (return _ 9 false 0 refl))
      (let_in _ 50 refl)

recovers : (execute 140 145 succeeds (execute 120 125 succeeds tripped).0).1 ≡ passed
unfolding execute
recovers = refl
