-- ===== src/Chain/Passes.antt =====
-- What one call of `Next` does: it never returns an error, it ends the execution once, and it calls
-- each notifying middleware with the ended execution.
use mathlib.Core.Bool.{◌&&◌}
use ofelia.Common.{
  ℕ, ◌≡◌, true, false, inl, inr, Option, none, some, List, [], ◌∷◌, ◌∙◌, ap, Bool-cases, if-true,
  if-false, or-eq-false, or-eq-true,
}
use ofelia.Job.{GoError, skipped_execution, Exit, returned, panicked}
use ofelia.Execution.{Execution}
use ofelia.Chain.{
  Middleware, overlap, notifier, Context, JobRun, runs_twice, wrap_exit, after_do_next, after_next,
  run_job, do_next, next,
}
use ofelia.Chain.Steps.{
  blocked, rest_after, notified, ended, refused, stopped, run_job-ended, after_chain,
  around-notifier, do_next-notifier, do_next-overlap, do_next-nil, do_next-ended, stop_running,
  enclose,
}

module _ {W : Type 0} (clock : W → ℕ) (job_run : Execution → W → JobRun W) where
  do_next-runs :
      (ms : List (Middleware W)) (c : Context W) (err : Option GoError)
      → c.execution.is_running ≡ true
      → (job_run c.execution c.world).exit ≡ returned err
      → blocked c.job.running ms ≡ false
      → after_do_next clock job_run (do_next clock job_run ms c) ≡ (
        notified clock job_run ms (ended clock job_run c (job_run c.execution c.world) err),
        returned none,
      )
  do_next-runs [] c err h x b =
      ap (after_do_next clock job_run) (do_next-nil clock job_run c h)
      ∙ run_job-ended clock job_run c err h x
  do_next-runs (overlap g ∷ ms) c err h x b =
      after_chain clock job_run (overlap g ∷ ms) c _ (stopped clock job_run _ _ _) (
        let (off, b') = or-eq-false (g && runs_twice c.job.running) (blocked c.job.running ms) b in
        do_next-overlap clock job_run g ms c h
        ∙ ap (λ x. enclose clock job_run (after_do_next clock job_run (do_next clock job_run ms x)))
            (if-false off _ _)
        ∙ ap (enclose clock job_run) (do_next-runs ms (record c { rest = ms }) err h x b'))
  do_next-runs (notifier f ∷ ms) c err h x b =
      after_chain clock job_run (notifier f ∷ ms) c _ (stopped clock job_run _ _ _) (
        around-notifier clock job_run f ms c _ (stopped clock job_run _ _ _)
          (do_next-runs ms (record c { rest = ms }) err h x b))

  do_next-refuses :
      (ms : List (Middleware W)) (c : Context W)
      → c.execution.is_running ≡ true
      → blocked c.job.running ms ≡ true
      → after_do_next clock job_run (do_next clock job_run ms c)
        ≡ (notified clock job_run ms (refused clock job_run c), returned none)
  do_next-refuses [] c h b = cc
  do_next-refuses (overlap g ∷ ms) c h b =
      let c' = record c { rest = ms } in
      elim (Bool-cases (g && runs_twice c.job.running)) [
        | inl on ↦ after_chain clock job_run (overlap g ∷ ms) c _ (stopped clock job_run _ _ _) (
            do_next-overlap clock job_run g ms c h
            ∙ ap
                (λ x.
                  enclose clock job_run (after_do_next clock job_run (do_next clock job_run ms x)))
                (if-true on _ _ ∙ stop_running clock job_run (some skipped_execution) c' h)
            ∙ ap (enclose clock job_run) (
                after_chain clock job_run ms (refused clock job_run c') _
                  (stopped clock job_run _ _ _)
                  (do_next-ended clock job_run ms (refused clock job_run c')
                    (stopped clock job_run _ _ _))))
        | inr off ↦ after_chain clock job_run (overlap g ∷ ms) c _ (stopped clock job_run _ _ _) (
            do_next-overlap clock job_run g ms c h
            ∙ ap
                (λ x.
                  enclose clock job_run (after_do_next clock job_run (do_next clock job_run ms x)))
                (if-false off _ _)
            ∙ ap (enclose clock job_run) (do_next-refuses ms c' h (or-eq-true _ _ off b)))
      ]
  do_next-refuses (notifier f ∷ ms) c h b =
      after_chain clock job_run (notifier f ∷ ms) c _ (stopped clock job_run _ _ _) (
        around-notifier clock job_run f ms c _ (stopped clock job_run _ _ _)
          (do_next-refuses ms (record c { rest = ms }) h b))

  -- The context in which a run of the job that leaves `r` panicked.
  abbrev pub broken : List (Middleware W) → Context W → JobRun W → Context W
  broken ms c r = record c {
    executed = true;
    rest = rest_after ms c.rest;
    world = r.world;
    execution = record c.execution {
      output_stream = r.output_stream;
      error_stream = r.error_stream;
    };
  }

  panic_passes :
      (f : Execution → W → W) (r : Context W × Exit) (d : Context W)
      → r ≡ (d, panicked)
      → (after_do_next clock job_run r ≡ (d, panicked))
        × (enclose clock job_run (after_next clock job_run f (after_do_next clock job_run r))
            ≡ (d, panicked))
  unfolding after_do_next after_next
  panic_passes f r d e = (
    ap (after_do_next clock job_run) e,
    ap (λ x. enclose clock job_run (after_next clock job_run f (after_do_next clock job_run x))) e,
  )

  do_next-panics :
      (ms : List (Middleware W)) (c : Context W)
      → c.execution.is_running ≡ true
      → (job_run c.execution c.world).exit ≡ panicked
      → blocked c.job.running ms ≡ false
      → do_next clock job_run ms c ≡ (broken ms c (job_run c.execution c.world), panicked)
  unfolding run_job after_do_next
  do_next-panics [] c h x b =
      do_next-nil clock job_run c h
      ∙ ap
          (λ (e : Exit).
            let p : Context W × Exit =
              (broken [] c (job_run c.execution c.world), wrap_exit "job run" e) in
            p)
          x
  do_next-panics (overlap g ∷ ms) c h x b =
      let (off, b') = or-eq-false (g && runs_twice c.job.running) (blocked c.job.running ms) b in
      do_next-overlap clock job_run g ms c h
      ∙ ap (λ x. enclose clock job_run (after_do_next clock job_run (do_next clock job_run ms x)))
          (if-false off _ _)
      ∙ ap (λ r. enclose clock job_run (after_do_next clock job_run r))
          (do_next-panics ms (record c { rest = ms }) h x b')
  do_next-panics (notifier f ∷ ms) c h x b =
      do_next-notifier clock job_run f ms c
      ∙ (panic_passes f _ _ (do_next-panics ms (record c { rest = ms }) h x b)).1

  -- If no overlap guard of the chain applies and the job returns, `Next` runs the job once, ends the
  -- execution with the job's error, and then calls each notifying middleware once, the last one
  -- first, with the ended clock job_run execution. It returns nil, also when the job has failed.
  pub next-runs :
      (c : Context W) (err : Option GoError)
      → c.execution.is_running ≡ true
      → (job_run c.execution c.world).exit ≡ returned err
      → blocked c.job.running c.rest ≡ false
      → next clock job_run c ≡ (
        notified clock job_run c.rest (ended clock job_run c (job_run c.execution c.world) err),
        returned none,
      )
  unfolding next
  next-runs c err h x b = do_next-runs c.rest c err h x b

  -- If an overlap guard of the chain applies, `Next` does not run the job: the execution is ended clock job_run as
  -- skipped, and each notifying middleware is called once, the last one first, with that execution.
  pub next-refuses :
      (c : Context W)
      → c.execution.is_running ≡ true
      → blocked c.job.running c.rest ≡ true
      → next clock job_run c
        ≡ (notified clock job_run c.rest (refused clock job_run c), returned none)
  unfolding next
  next-refuses c h b = do_next-refuses c.rest c h b

  -- If no overlap guard applies and the job panics, no middleware is called behind it, and the
  -- execution is not ended clock job_run.
  pub next-panics :
      (c : Context W)
      → c.execution.is_running ≡ true
      → (job_run c.execution c.world).exit ≡ panicked
      → blocked c.job.running c.rest ≡ false
      → next clock job_run c ≡ (broken c.rest c (job_run c.execution c.world), panicked)
  unfolding next after_do_next
  next-panics c h x b = ap (after_do_next clock job_run) (do_next-panics c.rest c h x b)
