-- ===== src/Bulkhead/Overshoot.antt =====
-- The reported number of active calls can pass the limit.
use ofelia.Common.{ℕ, zero, suc, ◌+◌, ◌^◌, ◌≤◌, ◌<◌, ◌≡◌, String, arith}
use ofelia.Bulkhead.{System, acquire, enter, leave, init, Reach, here, next}

record Full (n k : ℕ) (s : System) : Type 0 where
  limit : s.bulkhead.max_concurrent ≡ n
  slots : s.bulkhead.slots ≡ k
  none_entering : s.entering ≡ 0
  running : s.running ≡ k
  active : s.bulkhead.active ≡ k

fill : (name : String) (n k : ℕ) → n < 2 ^ 32 → k ≤ n → (s : System) × Reach name n s × Full n k s
fill name n zero h b = (init name n, here, omega arith)
fill name n (suc k) h b =
    let (s, r, f) = fill name n k h (omega arith) in
    let in_slot = acquire s (omega arith) in
    (_, next (next r in_slot) (enter _ 0 (omega arith)), omega arith)

-- For every positive limit below 2^32 - 1, the counter `active`, which the metrics report, can
-- exceed the limit: a call frees its slot before it lowers the counter.
pub active_overshoots :
    (name : String) (n : ℕ)
    → n + 2 < 2 ^ 32
    → ¬ ((s : System) → Reach name (n + 1) s → s.bulkhead.active ≤ n + 1)
active_overshoots name n h all =
    let (s, r, f) = fill name (n + 1) (n + 1) (omega arith) (omega arith) in
    let r' =
      next (next (next r (leave s n (omega arith))) (acquire _ (omega arith)))
        (enter _ 0 (omega arith)) in
    absurd (omega (arith, all _ r'))
