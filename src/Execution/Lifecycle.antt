-- ===== src/Execution/Lifecycle.antt =====
-- What an execution keeps through its life, and that no buffer of the pool is lost.
use mathlib.Core.List.Perm
use mathlib.Core.List.{Perm}
use ofelia.Common.{
  ℕ, ◌<◌, String, ◌≡◌, refl, Bool, false, not, Option, none, some, List, [], ◌∷◌, ◌++◌, arith,
  is_some, ◌&&◌, ◌||◌, if◌then◌else◌,
}
use ofelia.Job.{GoError, is_skipped}
use ofelia.Execution.{Buffer, Execution, stop, get_stdout, get_stderr, cleanup, new_execution}

-- `Cleanup` changes neither text that can be read, puts back exactly the streams that were live,
-- and puts nothing back when it is called again.
pub cleanup_keeps_output :
    (e : Execution)
    → let (e', put) = cleanup e in
      (get_stdout e' ≡ get_stdout e) × (get_stderr e' ≡ get_stderr e) × (cleanup e' ≡ (e', []))
unfolding cleanup get_stdout get_stderr
cleanup_keeps_output e = (refl, refl, refl)

abbrev pub skips : Option GoError → Bool
skips none = false
skips (some x) = is_skipped x

-- `Stop` ends the execution with a positive duration. It marks it as skipped exactly if the error is
-- a skip, at any depth of wrapping, and as failed exactly if there is an error that is none; a mark
-- that was there stays, and the error is kept exactly if it marks a failure.
pub stop-flags :
    (now : ℕ) (err : Option GoError) (e : Execution)
    → let e' = stop now err e in
      (e'.is_running ≡ false)
      × (0 < e'.duration)
      × (e'.skipped ≡ (e.skipped || skips err))
      × (e'.failed ≡ (e.failed || (is_some err && not (skips err))))
      × (e'.error ≡ (if is_some err && not (skips err) then err else e.error))
unfolding stop
stop-flags now none e = ground arith
stop-flags now (some x) e = ground arith

abbrev pub buffers : Option Execution → List Buffer
buffers none = []
buffers (some e) = (cleanup e).1

-- The buffer pool as the list of its free buffers: `Get` takes the first, if there is one.
abbrev pub get_first : List Buffer → Option (Buffer × List Buffer)
get_first [] = none
get_first (b ∷ bs) = some (b, bs)

-- Whether or not `NewExecution` succeeds, the buffers in the pool with those that the new execution
-- holds, and would put back, are the buffers that the pool had.
pub new_execution-perm :
    (random_id : Option String) (pool : List Buffer)
    → let (e, pool') = new_execution get_first ◌∷◌ random_id pool in Perm (buffers e ++ pool') pool
unfolding new_execution cleanup
new_execution-perm random_id [] = Perm.rfl
new_execution-perm random_id (a ∷ []) = Perm.rfl
new_execution-perm none (a ∷ b ∷ pool) = Perm.swap a b pool
new_execution-perm (some id) (a ∷ b ∷ pool) = Perm.rfl
