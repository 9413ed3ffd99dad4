-- ===== src/RunJob/Examples.antt =====
-- The theorems on container jobs at concrete answers of Docker.
use ofelia.Common.{true, false, ◌≡◌, refl, none, some, [], ◌∷◌, ◌++◌, pos, ◌is◌, arith}
use ofelia.RunJob.{
  RunJob, DockerCall, ensure_image, create_container, find_network_by_name, connect_network,
  start_container, wait_container, get_container_logs, stop_container, remove_container,
  connecting_network, non_zero_exit, answer, failure, Docker, parse_bool, connect_networks,
  connect_created, create_or_inspect_container, run,
}
use ofelia.RunJob.Cleaning.{
  ContainerState, absent, created, running, exited, Engine, after_all, prepared_calls,
  calls_from_start, run-cleans,
}
use ofelia.RunJob.Outcome.{any_call, is_creation, is_removal, run-connect_fails}

abbrev report : RunJob
report = record {
  name = "report";
  container_name = none;
  delete = "true";
  pull = "false";
  image = "alpine";
  network = "backend";
  container = "";
}

-- The job exits with 3, and its context has ended by then.
abbrev docker : Docker
docker = record {
  image_error = none;
  environment = answer [];
  inspected = failure "no such container";
  created = answer "c1";
  networks = answer ("n1" ∷ []);
  connect_error = λ n. none;
  start_error = none;
  exit_code = answer (pos 3);
  wait_ended = false;
  run_ended = true;
}

abbrev step : DockerCall → ContainerState → ContainerState
step (start_container id) s = running
step (wait_container id) s = exited
step (stop_container id) s = exited
step (remove_container id) running = running
step (remove_container id) s = absent
step _ s = s

step-removed :
    (s : ContainerState)
    → ofelia.RunJob.Cleaning.is_running s ≡ false
    → step (remove_container "c1") s ≡ absent
step-removed absent h = refl
step-removed created h = refl
step-removed running h = ground arith
step-removed exited h = refl

engine : Engine docker (create_or_inspect_container docker report).id
unfolding create_or_inspect_container ◌is◌
engine = record {
  after = step;
  start_fails = λ e h. ground arith;
  waited = λ code s h. refl;
  stopped = λ s. refl;
  removed = step-removed;
  logged = λ s. refl;
}

run-cleans_example :
    ((run docker report).calls ≡ prepared_calls docker report ++ calls_from_start docker report)
    × (after_all engine (calls_from_start docker report) created ≡ absent)
unfolding create_or_inspect_container connect_created connect_networks parse_bool ◌is◌
run-cleans_example = run-cleans docker report engine refl refl refl refl refl

abbrev unconnected : Docker
unconnected = record docker { connect_error = λ n. some "no such network" }

run-connect_fails_example :
    ((run unconnected report).error ≡ some (connecting_network "no such network"))
    × (any_call is_creation (run unconnected report).calls ≡ true)
    × (any_call is_removal (run unconnected report).calls ≡ false)
unfolding create_or_inspect_container connect_created connect_networks ◌is◌
run-connect_fails_example = run-connect_fails unconnected report "no such network" refl refl refl

abbrev in_place : RunJob
in_place = record report { image = ""; container = "db" }

ran : run docker report ≡ record {
  calls =
      ensure_image "alpine" false
      ∷ create_container "report"
      ∷ find_network_by_name "backend"
      ∷ connect_network "n1" "c1"
      ∷ start_container "c1"
      ∷ wait_container "c1"
      ∷ get_container_logs "c1"
      ∷ stop_container "c1"
      ∷ remove_container "c1"
      ∷ [];
  error = some (non_zero_exit (pos 3));
}
unfolding run connect_networks ◌is◌
ran = refl
