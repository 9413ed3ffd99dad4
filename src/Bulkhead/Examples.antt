-- ===== src/Bulkhead/Examples.antt =====
-- The theorems on the bulkhead at concrete values.
use ofelia.Common.{◌+◌, ◌%◌, ◌^◌, ◌≤◌, ◌≡◌, refl, arith}
use ofelia.Bulkhead.{System, acquire, enter, take_slot, count_in, init, Reach, here, next}
use ofelia.Bulkhead.Isolation.{isolation}

abbrev one_running : System
one_running = record (init "job_backup" 3) {
  bulkhead = count_in (take_slot (init "job_backup" 3).bulkhead);
  running = 1;
}

one_running-Reach : Reach "job_backup" 3 one_running
one_running-Reach = next (next here (acquire (init "job_backup" 3) (omega arith))) (enter _ 0 refl)

isolation_example :
    (one_running.running ≤ 3)
    × (one_running.bulkhead.slots ≡ one_running.entering + one_running.running)
    × (one_running.bulkhead.active ≡ (one_running.running + one_running.leaving) % 2 ^ 32)
    × (one_running.bulkhead.completed ≡ one_running.ended % 2 ^ 64)
isolation_example = isolation one_running-Reach
