-- ===== src/Shutdown/Tracking.antt =====
-- core/shutdown.go, `GracefulScheduler`: jobs that are run with tracking, and the hook that waits for
-- them. `RunJobWithTracking` is one goroutine for each call and one for its job, so it is cut at its
-- shared accesses, and `TrackStep` lets them interleave in any order with the shutdown.
pub mod Counted
pub mod Abandoned
use ofelia.Common.{ℕ, ◌+◌, ◌-◌, Bool, true, false, ◌≡◌}

-- `active_jobs` is the counter of the `WaitGroup`, and `all_completed` whether `gracefulStop` has
-- reported that. A call of `RunJobWithTracking` that is not refused is in one of the next four
-- phases, and each field counts the calls in it: the flag is read, and the call not yet counted; it
-- is counted, and its job not yet started; it waits for its job, which runs; it waits, and its job
-- has returned. `abandoned` counts the jobs that run on after their call has returned.
pub record Tracked : Type 0 where
  pub is_shutting_down : Bool
  pub chan_closed : Bool
  pub active_jobs : ℕ
  pub all_completed : Bool
  pub admitted : ℕ
  pub counted : ℕ
  pub waiting : ℕ
  pub answered : ℕ
  pub abandoned : ℕ

abbrev pub new_graceful_scheduler : Tracked
new_graceful_scheduler = record {
  is_shutting_down = false;
  chan_closed = false;
  active_jobs = 0;
  all_completed = false;
  admitted = 0;
  counted = 0;
  waiting = 0;
  answered = 0;
  abandoned = 0;
}

-- The jobs that run.
abbrev pub live_jobs : Tracked → ℕ
live_jobs s = s.waiting + s.abandoned

-- `gs.activeJobs.Add(1)`
abbrev pub add_active : Tracked → Tracked
add_active s = record s { active_jobs = s.active_jobs + 1 }

-- `gs.activeJobs.Done()`
abbrev pub done_active : Tracked → Tracked
done_active s = record s { active_jobs = s.active_jobs - 1 }

-- `refuse` returns `ErrCannotStartJob`, `receive` what the job returned, and the two that cancel
-- return `ErrJobCanceled`: the channel of the shutdown is closed, so the goroutine that monitors it
-- has cancelled the context. The context of the job itself is another one, so the job runs on.
-- `report` is `gracefulStop` at the end of its `Wait`; it is a hook, which the shutdown starts after
-- it has closed the channel. Where its own timeout is over first, it changes none of this.
pub data TrackStep : Tracked → Tracked → Type 0 where
  let_in :
      (s : Tracked)
      → s.is_shutting_down ≡ false
      → TrackStep s (record s { admitted = s.admitted + 1 })
  refuse : (s : Tracked) → s.is_shutting_down ≡ true → TrackStep s s
  count :
      (s : Tracked) (n : ℕ)
      → s.admitted ≡ n + 1
      → TrackStep s (record (add_active s) { admitted = n; counted = s.counted + 1 })
  launch :
      (s : Tracked) (n : ℕ)
      → s.counted ≡ n + 1
      → TrackStep s (record s { counted = n; waiting = s.waiting + 1 })
  job_returns :
      (s : Tracked) (n : ℕ)
      → s.waiting ≡ n + 1
      → TrackStep s (record s { waiting = n; answered = s.answered + 1 })
  receive :
      (s : Tracked) (n : ℕ)
      → s.answered ≡ n + 1
      → TrackStep s (record (done_active s) { answered = n })
  cancel :
      (s : Tracked) (n : ℕ)
      → s.chan_closed ≡ true
      → s.waiting ≡ n + 1
      → TrackStep s (record (done_active s) { waiting = n; abandoned = s.abandoned + 1 })
  cancel_answered :
      (s : Tracked) (n : ℕ)
      → s.chan_closed ≡ true
      → s.answered ≡ n + 1
      → TrackStep s (record (done_active s) { answered = n })
  abandoned_returns :
      (s : Tracked) (n : ℕ) → s.abandoned ≡ n + 1 → TrackStep s (record s { abandoned = n })
  begin_shutdown :
      (s : Tracked)
      → s.is_shutting_down ≡ false
      → TrackStep s (record s { is_shutting_down = true })
  close_chan :
      (s : Tracked)
      → s.is_shutting_down ≡ true
      → s.chan_closed ≡ false
      → TrackStep s (record s { chan_closed = true })
  report :
      (s : Tracked)
      → s.chan_closed ≡ true
      → s.active_jobs ≡ 0
      → TrackStep s (record s { all_completed = true })

pub data TrackReach : Tracked → Type 0 where
  start : TrackReach new_graceful_scheduler
  after : {s t : Tracked} → TrackReach s → TrackStep s t → TrackReach t
