-- ===== src/RunJob/Cleaning.antt =====
-- What a run leaves of the container that it makes, and of one that was there before.
use ofelia.Common.{
  String, Bool, true, false, not, ◌≡◌, refl, ap, ◌∙◌, Option, none, some, List, [], ◌∷◌, ◌++◌, ◌is◌,
  ℤ, inl, inr, Bool-cases, arith, ◌||◌,
}
use ofelia.RunJob.{
  RunJob, DockerCall, ensure_image, start_container, wait_container, get_container_logs,
  stop_container, remove_container, Answer, answer, failure, Docker, parse_bool,
  create_or_inspect_container, makes_container, start_and_wait, delete_container, cleanup_after_run,
  run,
}

-- Where a container is in its life.
pub data ContainerState : Type 0 where
  absent : ContainerState
  created : ContainerState
  running : ContainerState
  exited : ContainerState

abbrev pub is_running : ContainerState → Bool
is_running running = true
is_running _ = false

-- What Docker documents of the calls, as far as they concern the container: one that fails to start
-- stays, a wait that is answered ends with the container's end, a stop ends it, and a removal that
-- is not forced works unless it runs.
pub record Engine (d : Docker) (id : String) : Type 0 where
  pub after : DockerCall → ContainerState → ContainerState
  pub start_fails :
      (e : String) → d.start_error ≡ some e → after (start_container id) created ≡ created
  pub waited :
      (code : ℤ) (s : ContainerState)
      → d.exit_code ≡ answer code
      → after (wait_container id) s ≡ exited
  pub stopped : (s : ContainerState) → is_running (after (stop_container id) s) ≡ false
  pub removed : (s : ContainerState) → is_running s ≡ false → after (remove_container id) s ≡ absent
  pub logged : (s : ContainerState) → after (get_container_logs id) s ≡ s

module _ {d : Docker} {id : String} (e : Engine d id) where
  unfoldable pub after_all : List DockerCall → ContainerState → ContainerState
  after_all [] s = s
  after_all (c ∷ calls) s = after_all calls (e.after c s)

  after_all-append :
      (xs ys : List DockerCall) (s : ContainerState)
      → after_all (xs ++ ys) s ≡ after_all ys (after_all xs s)
  unfolding after_all
  after_all-append [] ys s = refl
  after_all-append (c ∷ xs) ys s = after_all-append xs ys (e.after c s)

abbrev pub wait_over : Option String → Answer ℤ → Bool
wait_over (some e) a = true
wait_over none (answer code) = true
wait_over none (failure e) = false

module _ {d : Docker} {id : String} (e : Engine d id) where
  -- After a start that failed or a wait that was answered, the container does not run.
  start_and_wait-over :
      (start : Option String) (exit : Answer ℤ)
      → d.start_error ≡ start
      → d.exit_code ≡ exit
      → wait_over start exit ≡ true
      → is_running (after_all e (start_and_wait d id).calls created) ≡ false
  unfolding start_and_wait after_all
  start_and_wait-over (some f) exit hs he h = ground (arith, e.start_fails f hs)
  start_and_wait-over none (answer code) hs he h =
      let s = e.after (start_container id) created in
      ground (
        arith,
        e.waited code s he,
        e.logged exited,
        ap (e.after (get_container_logs id)) (e.waited code s he),
      )
  start_and_wait-over none (failure f) hs he h = ground arith

  removed_after :
      (s : ContainerState)
      → is_running s ≡ false
      → after_all e (remove_container id ∷ []) s ≡ absent
  unfolding after_all
  removed_after s h = e.removed s h

  cleanup-removes :
      (j : RunJob) (s : ContainerState)
      → parse_bool j.delete ≡ true
      → (not (is_running s) || d.run_ended) ≡ true
      → after_all e (cleanup_after_run d j id) s ≡ absent
  unfolding cleanup_after_run delete_container after_all
  cleanup-removes j s del free = elim (Bool-cases d.run_ended) [
    | inl ended ↦ ground (arith, e.removed (e.after (stop_container id) s) (e.stopped s))
    | inr going ↦ ground (arith, e.removed s)
  ]

-- What a run with a container of its own calls before it starts it.
abbrev pub prepared_calls : Docker → RunJob → List DockerCall
prepared_calls d j =
    ensure_image j.image (parse_bool j.pull) ∷ (create_or_inspect_container d j).ran.calls

-- The calls of the run from the start of the container on.
abbrev pub calls_from_start : Docker → RunJob → List DockerCall
calls_from_start d j =
    let id = (create_or_inspect_container d j).id in
    (start_and_wait d id).calls ++ cleanup_after_run d j id

makes-container : (j : RunJob) → makes_container j ≡ true → (j.container is "") ≡ true
makes-container j h = ground arith

run-created :
    (d : Docker) (j : RunJob)
    → makes_container j ≡ true
    → d.image_error ≡ none
    → (create_or_inspect_container d j).ran.error ≡ none
    → (run d j).calls ≡ prepared_calls d j ++ calls_from_start d j
unfolding run
run-created d j makes pulled prepared = ground arith

-- A run that has made its container and connected it to its networks, where the container is to be
-- deleted: if the container did not start, or its end was awaited, or the run's context has ended
-- by then, whatever the exit code and the logs, then the calls from the start on leave no
-- container.
pub run-cleans :
    (d : Docker) (j : RunJob) (e : Engine d (create_or_inspect_container d j).id)
    → makes_container j ≡ true
    → d.image_error ≡ none
    → (create_or_inspect_container d j).ran.error ≡ none
    → parse_bool j.delete ≡ true
    → (wait_over d.start_error d.exit_code || d.run_ended) ≡ true
    → ((run d j).calls ≡ prepared_calls d j ++ calls_from_start d j)
      × (after_all e (calls_from_start d j) created ≡ absent)
run-cleans d j e makes pulled prepared del over =
    let id = (create_or_inspect_container d j).id in
    let s = after_all e (start_and_wait d id).calls created in
    (
      run-created d j makes pulled prepared,
      after_all-append e (start_and_wait d id).calls (cleanup_after_run d j id) created
          ∙ cleanup-removes e j s del
              (ground (arith, start_and_wait-over e d.start_error d.exit_code refl refl)),
    )
