-- ===== src/ServiceJob/Watching.antt =====
-- When the watch of a service ends.
use ofelia.Common.{
  ℕ, Bool, true, false, not, ◌&&◌, ◌≡◌, refl, Option, none, some, List, [], ◌∷◌, ◌++◌,
  if◌then◌else◌, ℤ, pos, is_some, arith,
}
use ofelia.RunJob.{Answer, answer, failure}
use ofelia.ServiceJob.{
  Task, has_stopped, is_terminal_state, Round, context_ends, tick, first_exit, find_task_status,
  WatchEnd, exits, fails, is_over_time, context_ended, max_time_running, watch_rounds,
}

-- Whether the loop goes on after the round.
unfoldable pub goes_on : ℤ → Round → Bool
goes_on max context_ends = false
goes_on max (tick elapsed tasks) =
    not (is_over_time max elapsed) && not (is_some (find_task_status tasks))

unfoldable pub all_go_on : ℤ → List Round → Bool
unfolding goes_on
all_go_on max [] = true
all_go_on max (r ∷ rounds) = goes_on max r && all_go_on max rounds

abbrev pub exits_or : Option ℤ → WatchEnd
exits_or none = fails context_ended
exits_or (some c) = exits c

-- How the loop ends in a round after which it does not go on.
abbrev pub round_end : ℤ → Round → WatchEnd
round_end max context_ends = fails context_ended
round_end max (tick elapsed tasks) =
    if is_over_time max elapsed then fails max_time_running else exits_or (find_task_status tasks)

watch_rounds-waits :
    (max : ℤ) (rounds : List Round) → all_go_on max rounds ≡ true → watch_rounds max rounds ≡ none
unfolding watch_rounds all_go_on goes_on
watch_rounds-waits max [] h = refl
watch_rounds-waits max (context_ends ∷ rounds) h = ground arith
watch_rounds-waits max (tick elapsed tasks ∷ rounds) h =
    ground (arith, watch_rounds-waits max rounds)

watch_rounds-first :
    (max : ℤ) (before rounds : List Round) (r : Round)
    → all_go_on max before ≡ true
    → goes_on max r ≡ false
    → watch_rounds max (before ++ r ∷ rounds) ≡ some (round_end max r)
unfolding watch_rounds all_go_on goes_on
watch_rounds-first max [] rounds context_ends h k = refl
watch_rounds-first max [] rounds (tick elapsed tasks) h k = ground arith
watch_rounds-first max (context_ends ∷ before) rounds r h k = ground arith
watch_rounds-first max (tick elapsed tasks ∷ before) rounds r h k =
    ground (arith, watch_rounds-first max before rounds r)

-- The watch of a service ends in the first round in which the context ends, the maximal runtime is
-- over or the service is found to have ended, as that round says, and waits while there is none.
pub watch_rounds-end :
    (max : ℤ) (before rounds : List Round) (r : Round)
    → all_go_on max before ≡ true
    → goes_on max r ≡ false
    → (watch_rounds max before ≡ none)
      × (watch_rounds max (before ++ r ∷ rounds) ≡ some (round_end max r))
watch_rounds-end max before rounds r h k =
    (watch_rounds-waits max before h, watch_rounds-first max before rounds r h k)

pub watch_rounds-late :
    (max : ℤ) (before rounds : List Round) (elapsed : ℕ) (tasks : Answer (List Task))
    → is_over_time max elapsed ≡ true
    → is_some (watch_rounds max (before ++ tick elapsed tasks ∷ rounds)) ≡ true
unfolding watch_rounds
watch_rounds-late max [] rounds elapsed tasks late = ground arith
watch_rounds-late max (context_ends ∷ before) rounds elapsed tasks late = refl
watch_rounds-late max (tick e t ∷ before) rounds elapsed tasks late =
    ground (arith, watch_rounds-late max before rounds elapsed tasks late)

-- Tasks that are shut down or orphaned.
unfoldable pub are_gone : List Task → Bool
are_gone [] = true
are_gone (t ∷ tasks) = is_terminal_state t.state && not (has_stopped t.state) && are_gone tasks

first_exit-gone : (tasks : List Task) → are_gone tasks ≡ true → first_exit tasks ≡ none
unfolding first_exit are_gone
first_exit-gone [] h = refl
first_exit-gone (t ∷ tasks) h = ground (arith, first_exit-gone tasks)

-- Rounds in which the tasks cannot be listed, or all have ended by a shutdown or as orphans.
unfoldable pub are_lost : List Round → Bool
unfolding are_gone
are_lost [] = true
are_lost (context_ends ∷ rounds) = false
are_lost (tick elapsed (failure e) ∷ rounds) = are_lost rounds
are_lost (tick elapsed (answer []) ∷ rounds) = false
are_lost (tick elapsed (answer (t ∷ tasks)) ∷ rounds) = are_gone (t ∷ tasks) && are_lost rounds

-- Without a maximal runtime, the watch goes on for as long as the tasks cannot be listed, or all of
-- them have ended by a shutdown or as orphans.
pub watch_rounds-lost :
    (rounds : List Round) → are_lost rounds ≡ true → watch_rounds (pos 0) rounds ≡ none
unfolding watch_rounds are_lost find_task_status
watch_rounds-lost [] h = refl
watch_rounds-lost (context_ends ∷ rounds) h = ground arith
watch_rounds-lost (tick elapsed (failure e) ∷ rounds) h = ground (arith, watch_rounds-lost rounds)
watch_rounds-lost (tick elapsed (answer []) ∷ rounds) h = ground arith
watch_rounds-lost (tick elapsed (answer (t ∷ tasks)) ∷ rounds) h =
    ground (arith, watch_rounds-lost rounds, first_exit-gone (t ∷ tasks))
