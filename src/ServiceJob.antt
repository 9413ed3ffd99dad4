-- ===== src/ServiceJob.antt =====
-- core/runservice.go, `RunServiceJob`: a job as a Docker Swarm service that runs once.
--
-- The provider is a parameter, with its answer to each call, and so are the rounds of the loop that
-- watches the service: in each the context ends, or the ticker ticks and the tasks are listed. Here
-- the specification of the service is only what it fails with, if it does; Spec makes it.
pub mod Watching
pub mod Deleting
pub mod Mounts
pub mod Printing
pub mod Spec
pub mod Specified
mod Examples
use Prim.Native.Char.{code}
use Prim.Native.String as Native
use ofelia.Common.{
  ℕ, zero, suc, ◌+◌, String, Bool, true, false, not, ◌&&◌, ◌||◌, Option, none, some, List, [], ◌∷◌,
  ◌++◌, map, ltb, leb, ◌==◌, if◌then◌else◌, ◌is◌, ℤ, pos, negsuc, eq_ℤ,
}
use ofelia.RunJob.{Answer, answer, failure, parse_bool}

pub record ServiceJob : Type 0 where
  pub delete : String
  pub image : String
  pub max_runtime : ℤ

pub data TaskState : Type 0 where
  new : TaskState
  pending : TaskState
  assigned : TaskState
  accepted : TaskState
  preparing : TaskState
  ready : TaskState
  starting : TaskState
  running : TaskState
  complete : TaskState
  shutdown : TaskState
  failed : TaskState
  rejected : TaskState
  remove : TaskState
  orphaned : TaskState

-- The exit code is that of the status of the container, where the task has one.
pub record Task : Type 0 where
  pub state : TaskState
  pub exit_code : Option ℤ

-- A round of the loop. The time is the one since the start.
pub data Round : Type 0 where
  context_ends : Round
  tick : ℕ → Answer (List Task) → Round

pub data ServiceCall : Type 0 where
  ensure_image : String → ServiceCall
  create_service : ServiceCall
  inspect_service : String → ServiceCall
  remove_service : String → ServiceCall

pub data ServiceError : Type 0 where
  ensuring_image : String → ServiceError
  building_service : String → ServiceError
  inspecting_service : String → ServiceError
  context_ended : ServiceError
  max_time_running : ServiceError
  unexpected : ServiceError
  non_zero_exit : ℤ → ServiceError
  removing_service : String → ServiceError

pub record Swarm : Type 0 where
  pub image_error : Option String
  pub prepare_error : Option String
  pub created : Answer String
  pub inspect_error : Option String
  pub rounds : List Round
  pub remove_error : Option String

-- Whether the state is one of `stopStates`.
abbrev pub has_stopped : TaskState → Bool
has_stopped complete = true
has_stopped failed = true
has_stopped rejected = true
has_stopped _ = false

-- `IsTerminalState` of core/domain/service.go.
abbrev pub is_terminal_state : TaskState → Bool
is_terminal_state complete = true
is_terminal_state failed = true
is_terminal_state rejected = true
is_terminal_state shutdown = true
is_terminal_state orphaned = true
is_terminal_state _ = false

abbrev pub exit_or : Option ℤ → ℤ
exit_or none = pos 1
exit_or (some code) = code

-- Non-zero for a task that was rejected.
abbrev pub forced : TaskState → ℤ → ℤ
forced rejected (pos zero) = pos 255
forced _ code = code

-- The loop over the tasks: the exit code of the first that has stopped.
unfoldable pub first_exit : List Task → Option ℤ
first_exit [] = none
first_exit (t ∷ tasks) =
    let rest = first_exit tasks in
    if has_stopped t.state then some (forced t.state (exit_or t.exit_code)) else rest

-- The exit code, if the service is found to have ended.
unfoldable pub find_task_status : Answer (List Task) → Option ℤ
unfolding first_exit
find_task_status (failure e) = none
find_task_status (answer []) = some (pos 0)
find_task_status (answer (t ∷ tasks)) = first_exit (t ∷ tasks)

-- How the watch ends: with an exit code or an error.
pub data WatchEnd : Type 0 where
  exits : ℤ → WatchEnd
  fails : ServiceError → WatchEnd

abbrev pub is_over_time : ℤ → ℕ → Bool
is_over_time (pos max) elapsed = ltb 0 max && ltb max elapsed
is_over_time (negsuc max) elapsed = false

-- The watching goroutine; `none` while it has not ended.
unfoldable pub watch_rounds : ℤ → List Round → Option WatchEnd
unfolding find_task_status
watch_rounds max [] = none
watch_rounds max (context_ends ∷ rounds) = some (fails context_ended)
watch_rounds max (tick elapsed tasks ∷ rounds) =
    let later = watch_rounds max rounds in
    if is_over_time max elapsed
    then some (fails max_time_running)
    else elim (find_task_status tasks) [ some c ↦ some (exits c) | none ↦ later ]

-- The `switch` on the exit code; -999 marks an error of the swarm.
abbrev pub exit_error : ℤ → Option ServiceError
exit_error c =
    if eq_ℤ c (pos 0)
    then none
    else if eq_ℤ c (negsuc 0) || eq_ℤ c (negsuc 998)
    then some unexpected
    else some (non_zero_exit c)

abbrev pub end_error : WatchEnd → Option ServiceError
end_error (exits c) = exit_error c
end_error (fails e) = some e

-- `watchContainer`: its error, once it returns.
abbrev pub after_inspect : ServiceJob → Swarm → Option String → Option (Option ServiceError)
after_inspect j d (some e) = some (some (inspecting_service e))
after_inspect j d none = elim (watch_rounds j.max_runtime d.rounds) [
  | none ↦ none
  | some w ↦ some (end_error w)
]

unfoldable pub watch_container : ServiceJob → Swarm → Option (Option ServiceError)
unfolding watch_rounds
watch_container j d = after_inspect j d d.inspect_error

-- The text in lower case, as code points; only ASCII letters matter to the tests on it.
unfoldable pub lowered : String → List ℕ
lowered Native.String.[] = []
lowered (Native.String.◌∷◌ c s) =
    (if leb b'A' (code c) && leb (code c) b'Z' then code c + 32 else code c) ∷ lowered s

unfoldable pub starts_with : List ℕ → List ℕ → Bool
starts_with s [] = true
starts_with [] (b ∷ t) = false
starts_with (a ∷ s) (b ∷ t) = a == b && starts_with s t

unfoldable pub contains : List ℕ → List ℕ → Bool
unfolding starts_with
contains [] t = starts_with [] t
contains (a ∷ s) t = starts_with (a ∷ s) t || contains s t

unfoldable pub is_not_found_error : String → Bool
unfolding lowered contains
is_not_found_error e =
    contains (lowered e) (lowered "not found")
    || contains (lowered e) (lowered "no such")
    || contains (lowered e) (lowered "404")

abbrev pub removal_error : Option String → Option ServiceError
removal_error none = none
removal_error (some e) = if is_not_found_error e then none else some (removing_service e)

-- Calls made, and an error or nil.
pub record ServiceRun : Type 0 where
  pub calls : List ServiceCall
  pub error : Option ServiceError

unfoldable pub delete_service : ServiceJob → Swarm → String → ServiceRun
unfolding is_not_found_error
delete_service j d id =
    if parse_bool j.delete
    then record { calls = remove_service id ∷ []; error = removal_error d.remove_error }
    else record { calls = []; error = none }

-- The error of `Run`: that of the watch comes first.
abbrev pub first_error : Option ServiceError → Option ServiceError → Option ServiceError
first_error (some e) del = some e
first_error none del = del

-- The rest of `Run` on a new service; `none` while it has not returned.
abbrev pub after_create : ServiceJob → Swarm → Answer String → Option ServiceRun
after_create j d (failure e) =
    some (record { calls = create_service ∷ []; error = some (building_service e) })
after_create j d (answer id) = elim (watch_container j d) [
  | none ↦ none
  | some err ↦
      let del = delete_service j d id in
      some (record {
        calls = create_service ∷ inspect_service id ∷ del.calls;
        error = first_error err del.error;
      })
]

abbrev pub after_prepare : ServiceJob → Swarm → Option String → Option ServiceRun
after_prepare j d (some e) = some (record { calls = []; error = some (building_service e) })
after_prepare j d none = after_create j d d.created

abbrev pub after_image : ServiceJob → Swarm → Option String → Option ServiceRun
after_image j d (some e) =
    some (record { calls = ensure_image j.image ∷ []; error = some (ensuring_image e) })
after_image j d none = elim (after_prepare j d d.prepare_error) [
  | none ↦ none
  | some r ↦ some (record r { calls = ensure_image j.image ∷ r.calls })
]

unfoldable pub run : ServiceJob → Swarm → Option ServiceRun
unfolding watch_container delete_service
run j d = after_image j d d.image_error
