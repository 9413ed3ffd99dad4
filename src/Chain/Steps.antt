-- ===== src/Chain/Steps.antt =====
-- The steps of the chain: each kind of middleware while the execution is running and once it has
-- ended.
use mathlib.Core.Bool.{◌&&◌, ◌||◌, not}
use ofelia.Common.{
  ℕ, ◌≡◌, refl, Bool, true, false, ◌⊎◌, inl, inr, Option, none, some, List, [], ◌∷◌, ◌∙◌, ap,
  Bool-cases, if-true, if-false, if◌then◌else◌, or_true, is_some,
}
use ofelia.Job.{GoError, skipped_execution, wrap_error, Exit, returned, panicked, notify_stop}
use ofelia.Execution
use ofelia.Execution.{Execution}
use ofelia.Execution.Lifecycle.{stop-flags}
use ofelia.Chain.{
  Middleware, overlap, notifier, Context, JobRun, runs_twice, wrap_exit, stop, after_do_next,
  after_next, run_job, do_next, next,
}

-- The last of the middlewares is called first.
abbrev pub notify_all : {W : Type 0} → List (Middleware W) → Execution → W → W
notify_all [] e w = w
notify_all (overlap _ ∷ ms) e w = notify_all ms e w
notify_all (notifier notify ∷ ms) e w = notify e (notify_all ms e w)

abbrev pub rest_after :
    {W : Type 0} → List (Middleware W) → List (Middleware W) → List (Middleware W)
rest_after [] r = r
rest_after (m ∷ ms) r = rest_after ms ms

-- Some overlap guard of the chain applies to a job whose counter of running executions is `r`.
abbrev pub blocked : {W : Type 0} → ℕ → List (Middleware W) → Bool
blocked r [] = false
blocked r (overlap no_overlap ∷ ms) = (no_overlap && runs_twice r) || blocked r ms
blocked r (notifier _ ∷ ms) = blocked r ms

pub unstopped : (b : Bool) → (not b && false) ≡ false
unstopped true = refl
unstopped false = refl

module _ {W : Type 0} (clock : W → ℕ) (job_run : Execution → W → JobRun W) where
  pub after_do_next-nil :
      (r : Context W × Exit)
      → ((after_do_next clock job_run r).1 ≡ returned none)
        ⊎ ((after_do_next clock job_run r).1 ≡ panicked)
  unfolding after_do_next
  after_do_next-nil (c, returned err) = inl refl
  after_do_next-nil (c, panicked) = inr refl

  -- `Next` returns nil, whatever the job and the middlewares return, unless something panics.
  pub next-nil :
      (c : Context W)
      → ((next clock job_run c).1 ≡ returned none) ⊎ ((next clock job_run c).1 ≡ panicked)
  unfolding next
  next-nil c = after_do_next-nil (do_next clock job_run c.rest c)

  pub stop_ended :
      (err : Option GoError) (c : Context W)
      → c.execution.is_running ≡ false
      → stop clock job_run err c ≡ c
  unfolding stop
  stop_ended err c h = rw h

  pub stop_running :
      (err : Option GoError) (c : Context W)
      → c.execution.is_running ≡ true
      → stop clock job_run err c ≡ record c {
        execution = Execution.stop (clock c.world) err c.execution;
        job = notify_stop c.job;
      }
  unfolding stop
  stop_running err c h = if-true h _ _

  pub after_do_next-ended :
      (c : Context W)
      → c.execution.is_running ≡ false
      → after_do_next clock job_run (c, returned none) ≡ (c, returned none)
  unfolding after_do_next
  after_do_next-ended c h = elim (Bool-cases c.executed) [
    | inl e ↦ simp (e, stop_ended none c h)
    | inr e ↦ simp e
  ]

  pub after_next-ended :
      (notify : Execution → W → W) (c : Context W)
      → c.execution.is_running ≡ false
      → after_next clock job_run notify (c, returned none)
        ≡ (record c { world = notify c.execution c.world }, returned none)
  unfolding after_next
  after_next-ended notify c h = rw (stop_ended none c h)

  abbrev pub enclose : Context W × Exit → Context W × Exit
  enclose q = (q.0, wrap_exit "middleware run" q.1)

  -- One step of `doNext`, for each kind of middleware and whether the execution is running.
  pub do_next-notifier :
      (f : Execution → W → W) (ms : List (Middleware W)) (c : Context W)
      → do_next clock job_run (notifier f ∷ ms) c ≡ (
          let q =
            after_next clock job_run f
              (after_do_next clock job_run (do_next clock job_run ms (record c { rest = ms }))) in
          (q.0, wrap_exit "middleware run" q.1))
  unfolding do_next
  do_next-notifier f ms c = if-false (unstopped c.execution.is_running) _ _

  pub do_next-overlap :
      (g : Bool) (ms : List (Middleware W)) (c : Context W)
      → c.execution.is_running ≡ true
      → do_next clock job_run (overlap g ∷ ms) c ≡ (
          let c' = record c { rest = ms } in
          let q = after_do_next clock job_run (
            do_next clock job_run ms (
              if g && runs_twice c.job.running
              then stop clock job_run (some skipped_execution) c'
              else c')) in
          (q.0, wrap_exit "middleware run" q.1))
  unfolding do_next
  do_next-overlap g ms c h = if-false (ap (λ b. not b && true) h) _ _

  pub do_next-overlap_ended :
      (g : Bool) (ms : List (Middleware W)) (c : Context W)
      → c.execution.is_running ≡ false
      → do_next clock job_run (overlap g ∷ ms) c ≡ do_next clock job_run ms (record c { rest = ms })
  unfolding do_next
  do_next-overlap_ended g ms c h = if-true (ap (λ b. not b && true) h) _ _

  pub do_next-nil :
      (c : Context W)
      → c.execution.is_running ≡ true
      → do_next clock job_run [] c ≡ run_job clock job_run c
  unfolding do_next
  do_next-nil c h = if-true h _ _

  pub do_next-nil_ended :
      (c : Context W)
      → c.execution.is_running ≡ false
      → do_next clock job_run [] c ≡ (c, returned none)
  unfolding do_next
  do_next-nil_ended c h = if-false h _ _

  -- The context with the notifications of `ms` made.
  abbrev pub notified : List (Middleware W) → Context W → Context W
  notified ms c = record c {
    rest = rest_after ms c.rest;
    world = notify_all ms c.execution c.world;
  }

  -- A notifying middleware around a `Next` that leaves the execution ended.
  pub around-notifier :
      (f : Execution → W → W) (ms : List (Middleware W)) (c d : Context W)
      → d.execution.is_running ≡ false
      → after_do_next clock job_run (do_next clock job_run ms (record c { rest = ms }))
        ≡ (d, returned none)
      → do_next clock job_run (notifier f ∷ ms) c
        ≡ (record d { world = f d.execution d.world }, returned none)
  around-notifier f ms c d h e =
      do_next-notifier f ms c
      ∙ ap (λ r. enclose (after_next clock job_run f r)) e
      ∙ ap enclose (after_next-ended f d h)

  -- Once the execution has ended, the rest of the chain only notifies.
  pub do_next-ended :
      (ms : List (Middleware W)) (c : Context W)
      → c.execution.is_running ≡ false
      → do_next clock job_run ms c ≡ (notified ms c, returned none)
  do_next-ended [] c h = do_next-nil_ended c h
  do_next-ended (overlap g ∷ ms) c h =
      do_next-overlap_ended g ms c h ∙ do_next-ended ms (record c { rest = ms }) h
  do_next-ended (notifier f ∷ ms) c h =
      around-notifier f ms c (notified ms (record c { rest = ms })) h (
        ap (after_do_next clock job_run) (do_next-ended ms (record c { rest = ms }) h)
        ∙ after_do_next-ended _ h)

  -- The context after a run of the job that leaves `r` and returns `err`, before the notifications.
  abbrev pub ended : Context W → JobRun W → Option GoError → Context W
  ended c r err = record c {
    executed = true;
    world = r.world;
    execution =
        Execution.stop (clock r.world) (wrap_error "job run" err)
          (record c.execution { output_stream = r.output_stream; error_stream = r.error_stream });
    job = notify_stop c.job;
  }

  -- The context after an overlap guard has stopped the execution.
  abbrev pub refused : Context W → Context W
  refused c = record c {
    execution = Execution.stop (clock c.world) (some skipped_execution) c.execution;
    job = notify_stop c.job;
  }

  pub stopped :
      (now : ℕ) (err : Option GoError) (e : Execution)
      → (Execution.stop now err e).is_running ≡ false
  stopped now err e = (stop-flags now err e).0

  pub run_job-ended :
      (c : Context W) (err : Option GoError)
      → c.execution.is_running ≡ true
      → (job_run c.execution c.world).exit ≡ returned err
      → after_do_next clock job_run (run_job clock job_run c)
        ≡ (ended c (job_run c.execution c.world) err, returned none)
  unfolding run_job after_do_next stop
  run_job-ended c err h x =
      let r = job_run c.execution c.world in
      let e = record c.execution {
        output_stream = r.output_stream;
        error_stream = r.error_stream;
      } in
      let c' = record c { executed = true; world = r.world; execution = e } in
      ap (λ (x : Exit). after_do_next clock job_run (c', wrap_exit "job run" x)) x
      ∙ ap (λ (d : Context W). let p : Context W × Exit = (d, returned none) in p)
          (if-true (or_true (is_some (wrap_error "job run" err))) _ _ ∙ if-true h _ _)

  pub after_chain :
      (ms : List (Middleware W)) (c d : Context W)
      → d.execution.is_running ≡ false
      → do_next clock job_run ms c ≡ (d, returned none)
      → after_do_next clock job_run (do_next clock job_run ms c) ≡ (d, returned none)
  after_chain ms c d h e = ap (after_do_next clock job_run) e ∙ after_do_next-ended d h
