-- ===== src/Concurrency/Examples.antt =====
-- The theorem on the limit at a concrete run: a job runs under the first limit when it is changed, and
-- another one is started under the new limit.
use ofelia.Common.{ℕ, ◌≤◌, ◌≡◌, [], ◌∷◌, pos, arith}
use ofelia.Concurrency.{
  Limited, new_limited, get_chan, start_run, set_limit, gets_chan, starts, Reach, start, sets_limit,
  next,
}
use ofelia.Concurrency.Limit.{running_jobs, sum, capacities, running-limits}

abbrev one_running : Limited
one_running = start_run 0 (get_chan (new_limited 1))

abbrev two_running : Limited
two_running = start_run 1 (get_chan (set_limit (pos 2) one_running))

two_running-Reach : Reach 1 (2 ∷ 1 ∷ []) two_running
unfolding ofelia.Concurrency.set_max_concurrent_jobs new_limited
    ofelia.Concurrency.new_concurrency_semaphore
two_running-Reach =
    let first =
      next (1 ∷ []) (new_limited 1) (get_chan (new_limited 1)) start (gets_chan (new_limited 1)) in
    let second =
      next (1 ∷ []) (get_chan (new_limited 1)) one_running first
        (starts 0 (get_chan (new_limited 1)) (omega arith) (omega arith)) in
    let changed = set_limit (pos 2) one_running in
    next (2 ∷ 1 ∷ []) (get_chan changed) two_running
      (next (2 ∷ 1 ∷ []) changed (get_chan changed) (sets_limit (pos 2) (1 ∷ []) one_running second)
        (gets_chan changed))
      (starts 1 (get_chan changed) (omega arith) (omega arith))

running-limits_example :
    (running_jobs two_running ≤ sum (2 ∷ 1 ∷ []))
    × ((i : ℕ) → (two_running.semaphore.channels i).held ≡ two_running.running i)
    × ((i : ℕ) → two_running.running i ≤ capacities two_running i)
running-limits_example = running-limits 1 (2 ∷ 1 ∷ []) two_running two_running-Reach
