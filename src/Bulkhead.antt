-- ===== src/Bulkhead.antt =====
-- core/resilience.go, the bulkhead. `Execute` is one goroutine per call, so it is cut at its shared
-- accesses: each atomic operation on the semaphore and the counters is one function here, and
-- `Step` lets the goroutines interleave them in any order.
pub mod Isolation
pub mod Overshoot
mod Examples
use ofelia.Common.{ℕ, ◌+◌, ◌-◌, ◌%◌, ◌^◌, ◌<◌, ◌≡◌, String}

-- `slots` is the number of values in the channel `semaphore`, whose capacity is
-- `max_concurrent`. `active` is an `int32` and the other counters are `uint64`.
pub record Bulkhead : Type 0 where
  pub name : String
  pub max_concurrent : ℕ
  pub slots : ℕ
  pub active : ℕ
  pub rejected : ℕ
  pub completed : ℕ

abbrev pub new_bulkhead : String → ℕ → Bulkhead
new_bulkhead name max_concurrent = record {
  name = name;
  max_concurrent = max_concurrent;
  slots = 0;
  active = 0;
  rejected = 0;
  completed = 0;
}

-- A call of `Execute` that has a slot is in one of these phases, and each field counts the calls
-- in it: before the counter `active` is raised; while `fn` runs; and in the deferred function after
-- its receive from the semaphore, after `active` is lowered.
pub record System : Type 0 where
  pub bulkhead : Bulkhead
  pub entering : ℕ
  pub running : ℕ
  pub leaving : ℕ
  pub closing : ℕ
  pub ended : ℕ

abbrev pub init : String → ℕ → System
init name n = record {
  bulkhead = new_bulkhead name n;
  entering = 0;
  running = 0;
  leaving = 0;
  closing = 0;
  ended = 0;
}

-- `case b.semaphore <- struct{}{}`
abbrev pub take_slot : Bulkhead → Bulkhead
take_slot b = record b { slots = b.slots + 1 }

-- `atomic.AddInt32(&b.active, 1)`
abbrev pub count_in : Bulkhead → Bulkhead
count_in b = record b { active = (b.active + 1) % 2 ^ 32 }

-- `<-b.semaphore`
abbrev pub free_slot : Bulkhead → Bulkhead
free_slot b = record b { slots = b.slots - 1 }

-- `atomic.AddInt32(&b.active, -1)`
abbrev pub count_out : Bulkhead → Bulkhead
count_out b = record b { active = (b.active + 2 ^ 32 - 1) % 2 ^ 32 }

-- `atomic.AddUint64(&b.completed, 1)`
abbrev pub complete : Bulkhead → Bulkhead
complete b = record b { completed = (b.completed + 1) % 2 ^ 64 }

-- `atomic.AddUint64(&b.rejected, 1)`
abbrev pub reject : Bulkhead → Bulkhead
reject b = record b { rejected = (b.rejected + 1) % 2 ^ 64 }

-- A send is ready while the channel has room. `ctx.Done()` may be ready at any time, and `default`
-- is taken only if the send is not. `fn` returns, or panics, in the step `leave`.
pub data Step : System → System → Type 0 where
  acquire :
      (s : System)
      → s.bulkhead.slots < s.bulkhead.max_concurrent
      → Step s (record s { bulkhead = take_slot s.bulkhead; entering = s.entering + 1 })
  enter :
      (s : System) (n : ℕ)
      → s.entering ≡ n + 1
      → Step s (record s { bulkhead = count_in s.bulkhead; entering = n; running = s.running + 1 })
  leave :
      (s : System) (n : ℕ)
      → s.running ≡ n + 1
      → Step s (record s { bulkhead = free_slot s.bulkhead; running = n; leaving = s.leaving + 1 })
  uncount :
      (s : System) (n : ℕ)
      → s.leaving ≡ n + 1
      → Step s (record s { bulkhead = count_out s.bulkhead; leaving = n; closing = s.closing + 1 })
  close :
      (s : System) (n : ℕ)
      → s.closing ≡ n + 1
      → Step s (record s { bulkhead = complete s.bulkhead; closing = n; ended = s.ended + 1 })
  cancel : (s : System) → Step s (record s { bulkhead = reject s.bulkhead })
  turn_away :
      (s : System)
      → s.bulkhead.slots ≡ s.bulkhead.max_concurrent
      → Step s (record s { bulkhead = reject s.bulkhead })

pub data Reach (name : String) (n : ℕ) : System → Type 0 where
  here : Reach name n (init name n)
  next : {s t : System} → Reach name n s → Step s t → Reach name n t
