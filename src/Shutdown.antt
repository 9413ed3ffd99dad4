-- ===== src/Shutdown.antt =====
-- core/shutdown.go, `ShutdownManager`: hooks in the order of their priorities, and the shutdown, which
-- runs the hooks of one priority together and then those of the next.
pub mod Registering
pub mod Collecting
pub mod Groups
pub mod Starting
pub mod Hanging
pub mod Tracking
mod Examples
use ofelia.Common.{
  ℕ, ◌+◌, String, Bool, true, false, not, ◌&&◌, ◌||◌, Option, none, some, List, [], ◌∷◌, ◌++◌, ℤ,
  pos, negsuc, ltb_ℤ, eq_ℤ, ltb, length, is_some, if◌then◌else◌, reverse,
}

-- What a hook does once it is started: it returns an error or nil, or has not returned when the
-- timeout of the shutdown is over.
pub data HookEnd : Type 0 where
  hook_returns : Option String → HookEnd
  hook_hangs : HookEnd

pub record ShutdownHook : Type 0 where
  pub name : String
  pub priority : ℤ
  pub hook : HookEnd

pub record ShutdownManager : Type 0 where
  pub timeout : ℤ
  pub hooks : List ShutdownHook
  pub is_shutting_down : Bool

-- 30 seconds, in nanoseconds.
unfoldable pub new_shutdown_manager : ℤ → ShutdownManager
new_shutdown_manager timeout = record {
  timeout = if ltb_ℤ (pos 0) timeout then timeout else pos 30_000_000_000;
  hooks = [];
  is_shutting_down = false;
}

-- The swaps of `RegisterHook`, on the hooks before the new one from the last to the first.
unfoldable pub sift : ShutdownHook → List ShutdownHook → List ShutdownHook
sift h [] = h ∷ []
sift h (prev ∷ rest) =
    let swapped = prev ∷ sift h rest in
    if not (ltb_ℤ h.priority prev.priority) then h ∷ prev ∷ rest else swapped

unfoldable pub register_hook : ShutdownHook → ShutdownManager → ShutdownManager
unfolding sift
register_hook h sm = record sm { hooks = reverse (sift h (reverse sm.hooks)) }

-- `groups[priority]`
unfoldable pub of_priority : ℤ → List ShutdownHook → List ShutdownHook
of_priority p [] = []
of_priority p (h ∷ hs) = let rest = of_priority p hs in if eq_ℤ h.priority p then h ∷ rest else rest

-- Whether the priority is one of the list.
unfoldable pub has_priority : ℤ → List ℤ → Bool
has_priority p [] = false
has_priority p (q ∷ qs) = eq_ℤ q p || has_priority p qs

-- `priorities`, given those of the hooks before.
unfoldable pub collect_priorities : List ShutdownHook → List ℤ → List ℤ
unfolding has_priority
collect_priorities [] ps = ps
collect_priorities (h ∷ hs) ps =
    collect_priorities hs (if has_priority h.priority ps then ps else ps ++ h.priority ∷ [])

-- `sort.Ints`, by insertion.
unfoldable pub insert_int : ℤ → List ℤ → List ℤ
insert_int p [] = p ∷ []
insert_int p (q ∷ qs) = let rest = insert_int p qs in if ltb_ℤ q p then q ∷ rest else p ∷ q ∷ qs

unfoldable pub sort_ints : List ℤ → List ℤ
unfolding insert_int
sort_ints [] = []
sort_ints (p ∷ ps) = insert_int p (sort_ints ps)

abbrev pub hangs : HookEnd → Bool
hangs (hook_returns err) = false
hangs hook_hangs = true

abbrev pub error_count : HookEnd → ℕ
error_count (hook_returns none) = 0
error_count (hook_returns (some err)) = 1
error_count hook_hangs = 0

unfoldable pub any_hangs : List ShutdownHook → Bool
any_hangs [] = false
any_hangs (h ∷ hs) = hangs h.hook || any_hangs hs

-- How many errors the hooks send.
unfoldable pub failures : List ShutdownHook → ℕ
failures [] = 0
failures (h ∷ hs) = error_count h.hook + failures hs

-- `hook_errors`, the number of errors of the hooks, wraps the error of the timeout, so that
-- `errors.Is` takes it for one.
pub data ShutdownError : Type 0 where
  shutdown_in_progress : ShutdownError
  shutdown_timeout : ShutdownError
  hook_errors : ℕ → ShutdownError

-- The hooks that were started, group by group, and what `Shutdown` returns.
pub record ShutdownEnd : Type 0 where
  pub started : List ShutdownHook
  pub result : Option ShutdownError

-- The loop over the priorities, with the hooks started and the errors so far. The hooks of a group
-- run at the same time; the order of `started` within a group is the one in which they are started.
unfoldable pub run_groups : List ShutdownHook → List ℤ → List ShutdownHook → ℕ → ShutdownEnd
unfolding of_priority any_hangs failures
run_groups hooks [] started errors = record {
  started = started;
  result = if ltb 0 errors then some (hook_errors errors) else none;
}
run_groups hooks (p ∷ ps) started errors =
    let group = of_priority p hooks in
    let onward = run_groups hooks ps (started ++ group) (errors + failures group) in
    if any_hangs group
    then record { started = started ++ group; result = some shutdown_timeout }
    else onward

unfoldable pub shutdown : ShutdownManager → ShutdownManager × ShutdownEnd
unfolding run_groups sort_ints collect_priorities
shutdown sm =
    if sm.is_shutting_down
    then (sm, record { started = []; result = some shutdown_in_progress })
    else (
      record sm { is_shutting_down = true },
      run_groups sm.hooks (sort_ints (collect_priorities sm.hooks [])) [] 0,
    )
