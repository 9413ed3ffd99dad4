-- ===== src/Shutdown/Tracking/Counted.antt =====
-- What the counter of active jobs counts, in every interleaving.
use ofelia.Common.{◌+◌, ◌≡◌, false, arith}
use ofelia.Shutdown.Tracking.{
  Tracked, TrackStep, let_in, refuse, count, launch, job_returns, receive, cancel, cancel_answered,
  abandoned_returns, begin_shutdown, close_chan, report, TrackReach, start, after,
}

record Inv (s : Tracked) : Type 0 where
  active : s.active_jobs ≡ s.counted + s.waiting + s.answered
  idle : s.is_shutting_down ≡ false → s.chan_closed ≡ false
  kept : s.chan_closed ≡ false → s.abandoned ≡ 0
  silent : s.chan_closed ≡ false → s.all_completed ≡ false

TrackStep-Inv : {s t : Tracked} → TrackStep s t → Inv s → Inv t
TrackStep-Inv (let_in s h) v = ground (arith, v.idle, v.kept, v.silent)
TrackStep-Inv (refuse s h) v = v
TrackStep-Inv (count s n h) v = ground (arith, v.idle, v.kept, v.silent)
TrackStep-Inv (launch s n h) v = ground (arith, v.idle, v.kept, v.silent)
TrackStep-Inv (job_returns s n h) v = ground (arith, v.idle, v.kept, v.silent)
TrackStep-Inv (receive s n h) v = ground (arith, v.idle, v.kept, v.silent)
TrackStep-Inv (cancel s n c h) v = ground (arith, v.idle, v.kept, v.silent)
TrackStep-Inv (cancel_answered s n c h) v = ground (arith, v.idle, v.kept, v.silent)
TrackStep-Inv (abandoned_returns s n h) v = ground (arith, v.idle, v.kept, v.silent)
TrackStep-Inv (begin_shutdown s h) v = ground (arith, v.idle, v.kept, v.silent)
TrackStep-Inv (close_chan s h c) v = ground (arith, v.idle, v.kept, v.silent)
TrackStep-Inv (report s c h) v = ground (arith, v.idle, v.kept, v.silent)

TrackReach-Inv : {s : Tracked} → TrackReach s → Inv s
TrackReach-Inv start = ground arith
TrackReach-Inv (after r st) = TrackStep-Inv st (TrackReach-Inv r)

-- In every interleaving, the counter of active jobs is the number of calls that are counted and
-- have not returned; and as long as the channel of the shutdown is not closed, no job runs on after
-- its call, and no hook has reported that all jobs are completed.
pub tracked :
    {s : Tracked}
    → TrackReach s
    → (s.active_jobs ≡ s.counted + s.waiting + s.answered)
      × (s.chan_closed ≡ false → (s.abandoned ≡ 0) × (s.all_completed ≡ false))
tracked r = let v = TrackReach-Inv r in (v.active, (λ h. (v.kept h, v.silent h)))
