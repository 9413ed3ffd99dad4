-- ===== src/Retry.antt =====
-- core/retry.go: `GetRetryConfig`, `ExecuteWithRetry` and `calculateDelay`.
-- The function that is run takes and returns a state `S`, which stands for all that it changes.
pub mod Attempts
pub mod Delay
mod Examples
use ofelia.Common.{
  ℕ, zero, suc, ◌+◌, ◌-◌, ◌*◌, ◌^◌, ◌≤◌, Bool, true, false, Option, none, some, List, [], ◌∷◌, ◌++◌,
  ℤ, pos, negsuc, ltb, leb, ltb_ℤ, if◌then◌else◌, min, String, pos_part,
}
use ofelia.Job.{GoError, wrap, Exit, returned, panicked, BareJob}

pub record RetryConfig : Type 0 where
  pub max_retries : ℤ
  pub retry_delay_ms : ℕ
  pub retry_exponential : Bool
  pub retry_max_delay_ms : ℕ

unfoldable pub get_retry_config : {E : Type 0} → BareJob E → RetryConfig
get_retry_config j = record {
  max_retries = j.max_retries;
  retry_delay_ms = j.retry_delay_ms;
  retry_exponential = j.retry_exponential;
  retry_max_delay_ms = j.retry_max_delay_ms;
}

-- A call of `RecordJobRetry`.
pub record RetryRecord : Type 0 where
  pub attempt : ℕ
  pub success : Bool

-- Go's `min` on `int`.
abbrev pub min_ℤ : ℤ → ℤ → ℤ
min_ℤ a b = if ltb_ℤ b a then b else a

-- `int(f)` for a float that holds the whole number `n`. Go leaves the result open where `n` is no
-- `int`: there it is `out_of_range`.
abbrev pub to_int : ℤ → ℕ → ℤ
to_int out_of_range n = if ltb n (2 ^ 63) then pos n else out_of_range

-- The delay in milliseconds. The product of floats is exact for a `retry_delay_ms` below 2^53,
-- and the model is of those.
unfoldable pub calculate_delay : ℤ → RetryConfig → ℕ → ℤ
calculate_delay out_of_range config attempt =
    if config.retry_exponential
    then min_ℤ (to_int out_of_range (config.retry_delay_ms * 2 ^ attempt))
        (pos config.retry_max_delay_ms)
    else pos config.retry_delay_ms

-- The state after the runs, how the call ends, the metrics recorded and the delays waited.
pub record Attempted (S : Type 0) : Type 0 where
  pub state : S
  pub result : Exit
  pub records : List RetryRecord
  pub delays : List ℤ

-- `if re.metrics != nil { re.metrics.RecordJobRetry(…) }`
unfoldable pub note : Bool → ℕ → Bool → List RetryRecord
note metrics attempt success =
    if metrics then record { attempt = attempt; success = success } ∷ [] else []

-- A panic of the function unwinds through the loop. `run` is the function that is run, and `interrupted k` is the context's error if the wait after
-- attempt `k` ends by `<-runCtx.Done()`. `metrics` tells whether there is a recorder.
module _ {S : Type 0} (out_of_range : ℤ) (run : S → S × Exit) (interrupted : ℕ → Option GoError)
    (config : RetryConfig) (metrics : Bool) where
  -- The loop, by recursion on the retries left, `config.MaxRetries - attempt`.
  unfoldable pub retry_loop : ℕ → ℕ → S → List RetryRecord → List ℤ → Attempted S
  unfolding note
  retry_loop zero attempt s records delays =
      let (s', exit) = run s in
      elim exit [
        | returned none ↦ record {
          state = s';
          result = returned none;
          records = records ++ (if ltb 0 attempt then note metrics attempt true else []);
          delays = delays;
        }
        | returned (some e) ↦ record {
          state = s';
          result = returned (some (wrap "job failed after all attempts" e));
          records = records ++ note metrics (attempt + 1) false;
          delays = delays;
        }
        | panicked ↦ record { state = s'; result = panicked; records = records; delays = delays }
      ]
  retry_loop (suc left) attempt s records delays =
      let (s', exit) = run s in
      let records' = records ++ note metrics (attempt + 1) false in
      let delays' = delays ++ calculate_delay out_of_range config attempt ∷ [] in
      elim exit [
        | returned none ↦ record {
          state = s';
          result = returned none;
          records = records ++ (if ltb 0 attempt then note metrics attempt true else []);
          delays = delays;
        }
        | returned (some e) ↦ elim (interrupted attempt) [
          | some x ↦ record {
            state = s';
            result = returned (some (wrap "retry interrupted" x));
            records = records';
            delays = delays';
          }
          | none ↦ retry_loop left (attempt + 1) s' records' delays'
        ]
        | panicked ↦ record { state = s'; result = panicked; records = records; delays = delays }
      ]

  run_once : S → Attempted S
  run_once s =
      let (s', exit) = run s in record { state = s'; result = exit; records = []; delays = [] }

  -- `config.MaxRetries <= 0` runs once.
  retry_by : ℤ → S → Attempted S
  unfolding retry_loop run_once
  retry_by (pos (suc n)) s = retry_loop (suc n) 0 s [] []
  retry_by _ s = run_once s

  -- Every job has a `BareJob` and so supports retries.
  unfoldable pub execute_with_retry : S → Attempted S
  unfolding retry_by
  execute_with_retry s = retry_by config.max_retries s
