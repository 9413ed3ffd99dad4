-- ===== src/Resilience/Executor.antt =====
-- What executions by `ResilientJobExecutor` leave behind, and how often they run the job.
use native.Mathlib.Nat.{mul-le-mul_left}
use ofelia.Common.{
  ℕ, ◌+◌, ◌-◌, ◌*◌, ◌^◌, ◌≤◌, ◌<◌, String, Bool, true, ◌≡◌, refl, ap, List, [], ◌∷◌, ltb, arith,
  if-all, pos_part,
}
use ofelia.Breaker.{CircuitBreaker, ExecuteResult, passed, fn_failed, fn_panicked, refused}
use ofelia.Breaker
use ofelia.Bulkhead.{Bulkhead, take_slot, count_in}
use ofelia.Resilience.{
  billion, allow_n, RetryPolicy, FnEnd, Retried, retry, outcome_of, ResilientJobExecutor,
  new_resilient_job_executor, Executed, release, after_breaker, execute_in_bulkhead, execute_job,
}
use ofelia.Resilience.Bucket.{Take, taken, in_order, last_time, granted_of, taken-bounded}
use ofelia.Resilience.Attempts.{retry-runs}

-- No slot is lost or gained.
pub IsRestored : Bulkhead → Bulkhead → Type 0
IsRestored b b' =
    (b'.slots ≡ b.slots) × (b'.active ≡ b.active) × (b'.max_concurrent ≡ b.max_concurrent)

release-IsRestored :
    (b : Bulkhead) → b.active < 2 ^ 32 → IsRestored b (release (count_in (take_slot b)))
unfolding IsRestored
release-IsRestored b h = (omega arith, omega arith, refl)

-- A request to execute the job: what its runs do, whether the context ends in the wait after each,
-- and when.
pub record Request (E : Type 0) : Type 0 where
  pub fn : ℕ → FnEnd E
  pub interrupted : ℕ → Bool
  pub start : ℕ
  pub finish : ℕ

times_mono : (t b m x : ℕ) → t * b ≤ x → t * m * b ≤ m * x
times_mono t b m x h = omega (arith, mul-le-mul_left m h)

module _ {E : Type 0} where
  after_breaker-keeps :
      (rje : ResilientJobExecutor) (r : Retried E) (x : CircuitBreaker × ExecuteResult)
      → ((after_breaker rje r x).executor.bulkhead ≡ release rje.bulkhead)
        × ((after_breaker rje r x).executor.rate_limiter ≡ rje.rate_limiter)
        × ((after_breaker rje r x).executor.circuit_breaker ≡ x.0)
        × ((after_breaker rje r x).runs ≤ r.runs)
  after_breaker-keeps rje r (cb, refused e) = (refl, refl, refl, omega arith)
  after_breaker-keeps rje r (cb, passed) = (refl, refl, refl, omega arith)
  after_breaker-keeps rje r (cb, fn_failed) = (refl, refl, refl, omega arith)
  after_breaker-keeps rje r (cb, fn_panicked) = (refl, refl, refl, omega arith)

  execute_in_bulkhead-IsRestored :
      (p : RetryPolicy E) (fn : ℕ → FnEnd E) (interrupted : ℕ → Bool) (start finish : ℕ)
      (rje : ResilientJobExecutor)
      → rje.bulkhead.active < 2 ^ 32
      → IsRestored rje.bulkhead
          (execute_in_bulkhead p fn interrupted start finish rje).executor.bulkhead
  unfolding execute_in_bulkhead IsRestored
  execute_in_bulkhead-IsRestored p fn interrupted start finish rje h =
      let r = retry p fn interrupted in
      let inside = record rje { bulkhead = count_in (take_slot rje.bulkhead) } in
      let x = Breaker.execute start finish (outcome_of r.end) rje.circuit_breaker in
      if-all (λ e. IsRestored rje.bulkhead e.executor.bulkhead)
        (ltb rje.bulkhead.slots rje.bulkhead.max_concurrent) (after_breaker inside r x) _
        (λ _. rw ((after_breaker-keeps inside r x).0) (release-IsRestored rje.bulkhead h))
        (λ _. (refl, refl, refl))

  -- However an execution ends, by a panic of the job too: the bulkhead has as many free slots and
  -- as many active calls as before.
  pub execute_job-IsRestored :
      (p : RetryPolicy E) (fn : ℕ → FnEnd E) (interrupted : ℕ → Bool) (start finish : ℕ)
      (rje : ResilientJobExecutor)
      → rje.bulkhead.active < 2 ^ 32
      → IsRestored rje.bulkhead (execute_job p fn interrupted start finish rje).executor.bulkhead
  unfolding execute_job IsRestored
  execute_job-IsRestored p fn interrupted start finish rje h =
      let (rl, ok) = allow_n 1 start rje.rate_limiter in
      let rje' = record rje { rate_limiter = rl } in
      if-all (λ e. IsRestored rje.bulkhead e.executor.bulkhead) ok
        (execute_in_bulkhead p fn interrupted start finish rje') _
        (λ _. execute_in_bulkhead-IsRestored p fn interrupted start finish rje' h)
        (λ _. (refl, refl, refl))

  -- How often requests, one after another, run the job.
  unfoldable pub total_runs : RetryPolicy E → List (Request E) → ResilientJobExecutor → ℕ
  total_runs p [] rje = 0
  total_runs p (q ∷ qs) rje =
      let x = execute_job p q.fn q.interrupted q.start q.finish rje in
      x.runs + total_runs p qs x.executor

  -- The tokens that they ask for.
  unfoldable pub takes : List (Request E) → List Take
  takes [] = []
  takes (q ∷ qs) = record { count = 1; time = q.start } ∷ takes qs

  execute_in_bulkhead-runs :
      (p : RetryPolicy E) (fn : ℕ → FnEnd E) (interrupted : ℕ → Bool) (start finish : ℕ)
      (rje : ResilientJobExecutor)
      → let x = execute_in_bulkhead p fn interrupted start finish rje in
        (x.executor.rate_limiter ≡ rje.rate_limiter) × (x.runs ≤ pos_part p.max_attempts)
  unfolding execute_in_bulkhead
  execute_in_bulkhead-runs p fn interrupted start finish rje =
      let r = retry p fn interrupted in
      let inside = record rje { bulkhead = count_in (take_slot rje.bulkhead) } in
      let x = Breaker.execute start finish (outcome_of r.end) rje.circuit_breaker in
      let (b, l, c, n) = after_breaker-keeps inside r x in
      if-all
        (λ e. (e.executor.rate_limiter ≡ rje.rate_limiter) × (e.runs ≤ pos_part p.max_attempts))
        (ltb rje.bulkhead.slots rje.bulkhead.max_concurrent) (after_breaker inside r x) _
        (λ _. (l, omega (arith, n, retry-runs p fn interrupted))) (λ _. (refl, omega arith))

  execute_job-runs :
      (p : RetryPolicy E) (fn : ℕ → FnEnd E) (interrupted : ℕ → Bool) (start finish : ℕ)
      (rje : ResilientJobExecutor)
      → let x = execute_job p fn interrupted start finish rje in
        let (rl, ok) = allow_n 1 start rje.rate_limiter in
        (x.executor.rate_limiter ≡ rl) × (x.runs ≤ granted_of 1 ok * pos_part p.max_attempts)
  unfolding execute_job
  execute_job-runs p fn interrupted start finish rje =
      let (rl, ok) = allow_n 1 start rje.rate_limiter in
      let most = pos_part p.max_attempts in
      let (l, n) =
        execute_in_bulkhead-runs p fn interrupted start finish (record rje { rate_limiter = rl }) in
      if-all {A = Executed E}
        (λ e. (e.executor.rate_limiter ≡ rl) × (e.runs ≤ granted_of 1 ok * most)) ok _ _
        (λ t. (l, omega (arith, n, ap (λ b. granted_of 1 b * most) t))) (λ _. (refl, omega arith))

  total_runs-taken :
      (p : RetryPolicy E) (qs : List (Request E)) (rje : ResilientJobExecutor)
      → total_runs p qs rje ≤ taken (takes qs) rje.rate_limiter * pos_part p.max_attempts
  unfolding total_runs takes taken
  total_runs-taken p [] rje = omega arith
  total_runs-taken p (q ∷ qs) rje =
      let x = execute_job p q.fn q.interrupted q.start q.finish rje in
      let (l, n) = execute_job-runs p q.fn q.interrupted q.start q.finish rje in
      let rest = total_runs-taken p qs x.executor in
      let most = pos_part p.max_attempts in
      omega (arith, n, rest, ap (λ rl. taken (takes qs) rl * most) l)

  -- Requests to a new executor, one after another in the order of time: the job runs at most as often
  -- as the attempts that are allowed, times 10 and the number of seconds from the making of the
  -- executor to the last request.
  pub total_runs-bounded :
      (p : RetryPolicy E) (name : String) (now : ℕ) (qs : List (Request E))
      → in_order now (takes qs) ≡ true
      → total_runs p qs (new_resilient_job_executor name now) * billion
        ≤ pos_part p.max_attempts * (10 * billion + (last_time now (takes qs) - now))
  unfolding new_resilient_job_executor
  total_runs-bounded p name now qs h =
      let rje = new_resilient_job_executor name now in
      let t = taken (takes qs) rje.rate_limiter in
      let most = pos_part p.max_attempts in
      let most_time = 10 * billion + (last_time now (takes qs) - now) in
      omega (
        arith,
        times_mono t billion most most_time
            (omega (arith, taken-bounded (takes qs) rje.rate_limiter h)),
        total_runs-taken p qs rje,
      )
