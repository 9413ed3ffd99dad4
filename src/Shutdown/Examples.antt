-- ===== src/Shutdown/Examples.antt =====
-- The theorems on the shutdown at concrete hooks.
use ofelia.Common.{true, ◌≡◌, if◌then◌else◌, refl, false, none, some, List, [], ◌∷◌, ℤ, pos}
use ofelia.Shutdown.{
  hook_returns, ShutdownHook, ShutdownManager, of_priority, hook_errors, shutdown_timeout, failures,
  hook_hangs, shutdown, any_hangs,
}
use ofelia.Shutdown.Tracking.{Tracked, live_jobs, TrackReach}
use ofelia.Shutdown.Tracking.Abandoned.{completed_while_running}
use ofelia.Shutdown.Groups.{errors_result}
use ofelia.Shutdown.Hanging.{blocked, shutdown-until_hang}

abbrev scheduler_hook : ShutdownHook
scheduler_hook = record { name = "scheduler"; priority = pos 10; hook = hook_returns (some "busy") }

abbrev server_hook : ShutdownHook
server_hook = record { name = "http-server"; priority = pos 20; hook = hook_returns none }

abbrev registered : List ShutdownHook
registered = server_hook ∷ scheduler_hook ∷ []

abbrev manager : ShutdownManager
manager = record {
  timeout = pos 30;
  hooks = scheduler_hook ∷ server_hook ∷ [];
  is_shutting_down = false;
}

one_error : (shutdown manager).1.result ≡ some (hook_errors 1)
unfolding shutdown
one_error = refl

-- A manager whose scheduler hook never returns.
abbrev hanging_manager : ShutdownManager
hanging_manager = record {
  timeout = pos 30;
  hooks = record { name = "scheduler"; priority = pos 10; hook = hook_hangs } ∷ server_hook ∷ [];
  is_shutting_down = false;
}

shutdown-until_hang_example :
    ((q : ℤ)
      → of_priority q (shutdown hanging_manager).1.started
        ≡ (if blocked q hanging_manager.hooks then [] else of_priority q hanging_manager.hooks))
    × ((shutdown hanging_manager).1.result ≡ (
        if any_hangs hanging_manager.hooks
        then some shutdown_timeout
        else errors_result (failures (shutdown hanging_manager).1.started)))
shutdown-until_hang_example = shutdown-until_hang hanging_manager refl

server_unstarted : of_priority (pos 20) (shutdown hanging_manager).1.started ≡ []
unfolding shutdown
server_unstarted = refl

completed_while_running_example :
    (s : Tracked) × TrackReach s × (s.all_completed ≡ true) × (live_jobs s ≡ 2)
completed_while_running_example = completed_while_running 2
