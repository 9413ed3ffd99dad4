-- ===== src/Bulkhead/Isolation.antt =====
-- What holds of the bulkhead in every interleaving.
use ofelia.Common.{ℕ, ◌+◌, ◌%◌, ◌^◌, ◌≤◌, ◌≡◌, String, arith}
use ofelia.Bulkhead.{
  System, Step, acquire, enter, leave, uncount, close, cancel, turn_away, Reach, here, next,
}

record Inv (n : ℕ) (s : System) : Type 0 where
  limit : s.bulkhead.max_concurrent ≡ n
  held : s.bulkhead.slots ≡ s.entering + s.running
  room : s.bulkhead.slots ≤ n
  counted : s.bulkhead.active ≡ (s.running + s.leaving) % 2 ^ 32
  done : s.bulkhead.completed ≡ s.ended % 2 ^ 64

Step-Inv : {n : ℕ} {s t : System} → Step s t → Inv n s → Inv n t
Step-Inv (acquire s h) v = omega arith
Step-Inv (enter s k e) v = omega arith
Step-Inv (leave s k e) v = omega arith
Step-Inv (uncount s k e) v = omega arith
Step-Inv (close s k e) v = omega arith
Step-Inv (cancel s) v = omega arith
Step-Inv (turn_away s e) v = omega arith

Reach-Inv : {name : String} {n : ℕ} {s : System} → Reach name n s → Inv n s
Reach-Inv here = omega arith
Reach-Inv (next r st) = Step-Inv st (Reach-Inv r)

-- In every interleaving, no more than `max_concurrent` of the functions run at once, a slot is held
-- by exactly the calls that are about to run or running theirs, and the counters of active and of
-- completed calls are, modulo their widths, the running calls with those that have just freed
-- their slot, and the calls that have ended.
pub isolation :
    {name : String} {n : ℕ} {s : System}
    → Reach name n s
    → (s.running ≤ n)
      × (s.bulkhead.slots ≡ s.entering + s.running)
      × (s.bulkhead.active ≡ (s.running + s.leaving) % 2 ^ 32)
      × (s.bulkhead.completed ≡ s.ended % 2 ^ 64)
isolation r = let v = Reach-Inv r in omega arith
