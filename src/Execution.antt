-- ===== src/Execution.antt =====
-- core/common.go, the execution: `Start`, `Stop`, `GetStdout`, `GetStderr`, `Cleanup`, and
-- `NewExecution` over the buffer pool, which is a parameter.
pub mod Lifecycle
mod Examples
use ofelia.Common.{
  ℕ, ◌+◌, ◌-◌, String, Bool, true, false, Option, none, some, List, [], ◌∷◌, ◌++◌, ltb,
  if◌then◌else◌, not,
}
use ofelia.Job.{GoError, is_skipped}

-- A `*circbuf.Buffer`: which one it is, and the text that it holds.
pub record Buffer : Type 0 where
  pub ident : ℕ
  pub text : String

-- The zero `time.Time` is `none`. Times are nanoseconds on the monotonic clock.
pub record Execution : Type 0 where
  pub id : String
  pub date : Option ℕ
  pub duration : ℕ
  pub is_running : Bool
  pub failed : Bool
  pub skipped : Bool
  pub error : Option GoError
  pub output_stream : Option Buffer
  pub error_stream : Option Buffer
  pub captured_stdout : String
  pub captured_stderr : String

unfoldable pub start : ℕ → Execution → Execution
start now e = record e { is_running = true; date = some now }

-- `if e.Date.IsZero() { e.Date = time.Now() }`
abbrev pub date_or : ℕ → Option ℕ → ℕ
date_or now none = now
date_or now (some t) = t

-- `time.Since(e.Date)`, and a nanosecond if that is not positive.
abbrev pub positive_duration : ℕ → ℕ → ℕ
positive_duration now date = if ltb 0 (now - date) then now - date else 1

-- The last `if` of `Stop`.
abbrev settle : Option GoError → Execution → Execution
settle none e = e
settle (some err) e =
    if is_skipped err
    then record e { skipped = true }
    else record e { error = some err; failed = true }

unfoldable pub stop : ℕ → Option GoError → Execution → Execution
stop now err e = settle err (record e {
  is_running = false;
  date = some (date_or now e.date);
  duration = positive_duration now (date_or now e.date);
})

-- `if stream != nil { return stream.String() }; return captured`
abbrev live_or : Option Buffer → String → String
live_or none captured = captured
live_or (some b) captured = b.text

unfoldable pub get_stdout : Execution → String
get_stdout e = live_or e.output_stream e.captured_stdout

unfoldable pub get_stderr : Execution → String
get_stderr e = live_or e.error_stream e.captured_stderr

abbrev put_back : Option Buffer → List Buffer
put_back none = []
put_back (some b) = b ∷ []

-- The execution, and the buffers that are put back into the pool in that order.
unfoldable pub cleanup : Execution → Execution × List Buffer
cleanup e = (
  record e {
    captured_stdout = live_or e.output_stream e.captured_stdout;
    captured_stderr = live_or e.error_stream e.captured_stderr;
    output_stream = none;
    error_stream = none;
  },
  put_back e.output_stream ++ put_back e.error_stream,
)

-- The pool of a type `P` with `DefaultBufferPool.Get` and `Put`; `random_id` is what `randomID`
-- returns, `none` being its error.
module _ {P : Type 0} (get : P → Option (Buffer × P)) (put : Buffer → P → P) where
  abbrev fresh_execution : String → Buffer → Buffer → Execution
  fresh_execution id out err = record {
    id = id;
    date = none;
    duration = 0;
    is_running = false;
    failed = false;
    skipped = false;
    error = none;
    output_stream = some out;
    error_stream = some err;
    captured_stdout = "";
    captured_stderr = "";
  }

  identify : Option String → Buffer → Buffer → P → Option Execution × P
  identify none out err pool = (none, put err (put out pool))
  identify (some id) out err pool = (some (fresh_execution id out err), pool)

  take_error_buffer : Option (Buffer × P) → Option String → Buffer → P → Option Execution × P
  unfolding identify
  take_error_buffer none random_id out pool = (none, put out pool)
  take_error_buffer (some (err, pool')) random_id out pool = identify random_id out err pool'

  take_output_buffer : Option (Buffer × P) → Option String → P → Option Execution × P
  unfolding take_error_buffer
  take_output_buffer none random_id pool = (none, pool)
  take_output_buffer (some (out, pool')) random_id pool =
      take_error_buffer (get pool') random_id out pool'

  -- Without an execution, the error of the step that failed is returned.
  unfoldable pub new_execution : Option String → P → Option Execution × P
  unfolding take_output_buffer
  new_execution random_id pool = take_output_buffer (get pool) random_id pool
