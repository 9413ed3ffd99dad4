-- ===== src/Concurrency.antt =====
-- core/scheduler.go, the limit on concurrent jobs: `concurrencySemaphore`, `SetMaxConcurrentJobs` and
-- `maxConcurrentSkipJob`, which go-cron runs around every job.
pub mod Limit
mod Examples
use ofelia.Common.{
  ℕ, suc, ◌+◌, ◌-◌, ◌<◌, ◌≤◌, Bool, true, false, if◌then◌else◌, ◌==◌, List, [], ◌∷◌, ℤ, pos, ltb_ℤ,
  pos_part,
}

-- A channel of which a slot is taken by sending and freed by receiving.
pub record Channel : Type 0 where
  pub capacity : ℕ
  pub held : ℕ

-- `resize` makes a new channel, and an invocation may still have an old one: `channels` has those
-- made so far, from 0 to `current`, which is `ch`. Its capacity is `cap`.
pub record ConcurrencySemaphore : Type 0 where
  pub channels : ℕ → Channel
  pub current : ℕ

abbrev pub set_channel : ℕ → Channel → (ℕ → Channel) → ℕ → Channel
set_channel i c channels k = if k == i then c else channels k

unfoldable pub new_concurrency_semaphore : ℕ → ConcurrencySemaphore
new_concurrency_semaphore n = record {
  channels = λ k. record { capacity = if k == 0 then n else 0; held = 0 };
  current = 0;
}

unfoldable pub resize : ℕ → ConcurrencySemaphore → ConcurrencySemaphore
resize n cs = record {
  channels = set_channel (suc cs.current) (record { capacity = n; held = 0 }) cs.channels;
  current = suc cs.current;
}

abbrev pub get_cap : ConcurrencySemaphore → ℕ
get_cap cs = (cs.channels cs.current).capacity

-- `if maxJobs < 1 { maxJobs = 1 }`
abbrev pub at_least_one : ℤ → ℕ
at_least_one max_jobs = if ltb_ℤ max_jobs (pos 1) then 1 else pos_part max_jobs

-- `SetMaxConcurrentJobs`, on the semaphore.
unfoldable pub set_max_concurrent_jobs : ℤ → ConcurrencySemaphore → ConcurrencySemaphore
unfolding resize
set_max_concurrent_jobs max_jobs cs = resize (at_least_one max_jobs) cs

-- `ch <- struct{}{}`
abbrev pub acquire_slot : ℕ → ConcurrencySemaphore → ConcurrencySemaphore
acquire_slot i cs = record cs {
  channels = set_channel i (record (cs.channels i) { held = (cs.channels i).held + 1 }) cs.channels;
}

-- `<-ch`
abbrev pub release_slot : ℕ → ConcurrencySemaphore → ConcurrencySemaphore
release_slot i cs = record cs {
  channels = set_channel i (record (cs.channels i) { held = (cs.channels i).held - 1 }) cs.channels;
}

-- The semaphore with the invocations: how many have got a channel and not yet tried to take a slot of
-- it, and how many run with a slot of it.
pub record Limited : Type 0 where
  pub semaphore : ConcurrencySemaphore
  pub trying : ℕ → ℕ
  pub running : ℕ → ℕ

abbrev pub set_count : ℕ → ℕ → (ℕ → ℕ) → ℕ → ℕ
set_count i n counts k = if k == i then n else counts k

abbrev pub get_chan : Limited → Limited
get_chan s =
    let i = s.semaphore.current in record s { trying = set_count i (s.trying i + 1) s.trying }

abbrev pub start_run : ℕ → Limited → Limited
start_run i s = record {
  semaphore = acquire_slot i s.semaphore;
  trying = set_count i (s.trying i - 1) s.trying;
  running = set_count i (s.running i + 1) s.running;
}

abbrev pub skip_run : ℕ → Limited → Limited
skip_run i s = record s { trying = set_count i (s.trying i - 1) s.trying }

abbrev pub end_run : ℕ → Limited → Limited
end_run i s = record s {
  semaphore = release_slot i s.semaphore;
  running = set_count i (s.running i - 1) s.running;
}

-- An atomic step of `RunWithContext`. The inner job may return or panic: the slot is freed by a
-- deferred function.
pub data Step : Limited → Limited → Type 0 where
  gets_chan : (s : Limited) → Step s (get_chan s)
  starts :
      (i : ℕ) (s : Limited)
      → 0 < s.trying i
      → (s.semaphore.channels i).held < (s.semaphore.channels i).capacity
      → Step s (start_run i s)
  skips :
      (i : ℕ) (s : Limited)
      → 0 < s.trying i
      → (s.semaphore.channels i).capacity ≤ (s.semaphore.channels i).held
      → Step s (skip_run i s)
  ends : (i : ℕ) (s : Limited) → 0 < s.running i → Step s (end_run i s)

unfoldable pub new_limited : ℕ → Limited
new_limited n = record {
  semaphore = new_concurrency_semaphore n;
  trying = λ i. 0;
  running = λ i. 0;
}

abbrev pub set_limit : ℤ → Limited → Limited
set_limit max_jobs s = record s { semaphore = set_max_concurrent_jobs max_jobs s.semaphore }

-- What can come of a limit of `n` at first, by steps of any invocations and by changes of the limit in
-- between; with the limits that there were, the last one first.
pub data Reach (n : ℕ) : List ℕ → Limited → Type 0 where
  start : Reach n (n ∷ []) (new_limited n)
  sets_limit :
      (max_jobs : ℤ) (limits : List ℕ) (s : Limited)
      → Reach n limits s
      → Reach n (at_least_one max_jobs ∷ limits) (set_limit max_jobs s)
  next : (limits : List ℕ) (s t : Limited) → Reach n limits s → Step s t → Reach n limits t
