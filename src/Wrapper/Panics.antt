-- ===== src/Wrapper/Panics.antt =====
-- What a panic of a job does to its later runs.
use ofelia.Common.{
  ℕ, ◌+◌, ◌^◌, ◌<◌, ◌≡◌, refl, Bool, true, false, Option, none, some, List, [], ◌∷◌, arith, ◌∙◌, ap,
  length, replicate, map, ℤ, or_true,
}
use ofelia.Job.{
  GoError, skipped_execution, panicked, BareJob, notify_start, set_last_run, is_skipped,
}
use ofelia.Execution.{Execution, cleanup}
use ofelia.Execution.Lifecycle.{stop-flags}
use ofelia.Chain.{Middleware, overlap, notifier, JobRun}
use ofelia.Chain.Steps.{blocked}
use ofelia.Wrapper.{Ran, run_with_ctx}
use ofelia.Wrapper.Runs.{begun, run_with_ctx-skips, run_with_ctx-panics}

not-blocked_one : {W : Type 0} (ms : List (Middleware W)) → blocked 1 ms ≡ false
not-blocked_one [] = refl
not-blocked_one (overlap g ∷ ms) = ground (arith, not-blocked_one ms)
not-blocked_one (notifier f ∷ ms) = not-blocked_one ms

running-notify_start :
    {E : Type 0} (j : BareJob E) (n : ℕ)
    → j.running ≡ n
    → n + 1 < 2 ^ 32
    → (notify_start j).running ≡ n + 1
unfolding notify_start
running-notify_start j n h b = omega arith

running-set_last_run : {E : Type 0} (e : E) (j : BareJob E) → (set_last_run e j).running ≡ j.running
unfolding set_last_run
running-set_last_run e j = refl

-- Whether the last run of a job is marked as skipped.
abbrev pub last_skipped : BareJob Execution → Bool
last_skipped j = elim j.last_run [ none ↦ false | some e ↦ e.skipped ]

module _ {W : Type 0} (clock : W → ℕ) (job_run : Execution → W → JobRun W) (out_of_range : ℤ)
    (interrupted : ℕ → Option GoError) (metrics callback : Bool) (ms : List (Middleware W)) where
  -- Runs of a job one after the other, with the fresh executions given.
  unfoldable pub run_all : List Execution → BareJob Execution → W → List (Ran W)
  run_all [] job world = []
  run_all (e ∷ es) job world =
      let r =
        run_with_ctx clock job_run out_of_range interrupted metrics callback true (some e) job ms
          world in
      r ∷ run_all es r.job r.world

  skipped_run :
      (e : Execution) (job : BareJob Execution) (world : W)
      → job.running ≡ 1
      → blocked 2 ms ≡ true
      → let r =
          run_with_ctx clock job_run out_of_range interrupted metrics callback true
            (some e)
            job
            ms
            world in
        (last_skipped r.job ≡ true) × (r.job.running ≡ 1)
  unfolding set_last_run cleanup is_skipped
  skipped_run e job world h b =
      let b' : blocked (notify_start job).running ms ≡ true =
        rw (running-notify_start job 1 h (omega arith)) b in
      let s =
        run_with_ctx-skips clock job_run out_of_range interrupted metrics callback e job ms world
          (omega arith) b' in
      let (_, _, marked, _, _) =
        stop-flags (clock world) (some skipped_execution)
          (begun clock job_run out_of_range interrupted metrics callback e world) in
      rw s (marked ∙ or_true _, h)

  skipped_runs :
      (es : List Execution) (job : BareJob Execution) (world : W)
      → job.running ≡ 1
      → blocked 2 ms ≡ true
      → (map (λ r. last_skipped r.job) (run_all es job world) ≡ replicate (length es) true)
        × (map (λ r. r.job.running) (run_all es job world) ≡ replicate (length es) 1)
  unfolding run_all
  skipped_runs [] job world h b = (refl, refl)
  skipped_runs (e ∷ es) job world h b =
      let (s, same) = skipped_run e job world h b in
      let (skipped, stays) = skipped_runs es _ _ same b in
      ((λ i. s i ∷ skipped i), λ i. same i ∷ stays i)

  -- After one panic of a job that was not running, with an overlap guard in its chain, every later run
  -- is skipped, whatever the job would do, and its counter of running executions is 1 after each
  -- of them.
  pub panic_disables :
      (e : Execution) (es : List Execution) (job : BareJob Execution) (world : W)
      → job.running ≡ 0
      → blocked 2 ms ≡ true
      → (job_run (begun clock job_run out_of_range interrupted metrics callback e world) world).exit
        ≡ panicked
      → let r =
          run_with_ctx clock job_run out_of_range interrupted metrics callback true
            (some e)
            job
            ms
            world in
        (map (λ s. last_skipped s.job) (run_all es r.job r.world) ≡ replicate (length es) true)
        × (map (λ s. s.job.running) (run_all es r.job r.world) ≡ replicate (length es) 1)
  panic_disables e es job world h b x =
      let one = running-notify_start job 0 h (omega arith) in
      let free : blocked (notify_start job).running ms ≡ false = rw one (not-blocked_one ms) in
      let p =
        run_with_ctx-panics clock job_run out_of_range interrupted metrics callback e job ms world
          free x in
      skipped_runs es _ _ (ap (λ (r : Ran W). r.job.running) p ∙ one) b
