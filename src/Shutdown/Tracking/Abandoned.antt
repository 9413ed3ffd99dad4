-- ===== src/Shutdown/Tracking/Abandoned.antt =====
-- Jobs that run on after the shutdown has reported that all of them are completed.
use ofelia.Common.{ℕ, zero, suc, ◌≡◌, true, false, refl, arith}
use ofelia.Shutdown.Tracking.{
  Tracked, live_jobs, let_in, count, launch, cancel, begin_shutdown, close_chan, report, TrackReach,
  start, after, new_graceful_scheduler,
}

record Started (n : ℕ) (s : Tracked) : Type 0 where
  open_flag : s.is_shutting_down ≡ false
  open_chan : s.chan_closed ≡ false
  active : s.active_jobs ≡ n
  admitted : s.admitted ≡ 0
  counted : s.counted ≡ 0
  waiting : s.waiting ≡ n
  abandoned : s.abandoned ≡ 0

-- A number of calls of which each has started its job.
started : (n : ℕ) → (s : Tracked) × TrackReach s × Started n s
started zero = (new_graceful_scheduler, start, ground arith)
started (suc n) =
    let (s, r, v) = started n in
    let counting = after (after r (let_in s v.open_flag)) (count _ 0 (omega arith)) in
    (_, after counting (launch _ 0 (omega arith)), ground arith)

record Cancelled (n k : ℕ) (s : Tracked) : Type 0 where
  closed : s.chan_closed ≡ true
  active : s.active_jobs ≡ k
  waiting : s.waiting ≡ k
  running : live_jobs s ≡ n

-- The calls are cancelled one after the other.
cancelled :
    (n k : ℕ) (s : Tracked)
    → TrackReach s
    → Cancelled n k s
    → (t : Tracked) × TrackReach t × Cancelled n 0 t
cancelled n zero s r v = (s, r, v)
cancelled n (suc k) s r v =
    cancelled n k _ (after r (cancel s k v.closed (ground arith))) (ground arith)

-- For every number of jobs there is an interleaving in which the shutdown has reported that all jobs
-- are completed while that many of them run.
pub completed_while_running :
    (n : ℕ) → (s : Tracked) × TrackReach s × (s.all_completed ≡ true) × (live_jobs s ≡ n)
completed_while_running n =
    let (s, r, v) = started n in
    let closing = after (after r (begin_shutdown s v.open_flag)) (close_chan _ refl v.open_chan) in
    let (t, q, w) = cancelled n n _ closing (ground arith) in
    (_, after q (report t w.closed w.active), refl, w.running)
