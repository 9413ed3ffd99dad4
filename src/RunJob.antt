-- ===== src/RunJob.antt =====
-- core/runjob.go, `RunJob`: a job in a container of its own, or in one that is there.
--
-- Docker is a parameter, with the answer to each call. A run is the list of the calls that it makes
-- and its error. The answers tell, too, whether the context of the run had ended when it was asked:
-- that is the environment's. What the options of the container are is left out, but for its name
-- and its environment.
pub mod Cleaning
pub mod Outcome
mod Examples
use ofelia.Common.{
  ℕ, zero, suc, String, Bool, true, false, not, ◌&&◌, ◌||◌, Option, none, some, List, [], ◌∷◌, ◌++◌,
  if◌then◌else◌, ◌is◌, ℤ, pos, negsuc,
}

pub record RunJob : Type 0 where
  pub name : String
  pub container_name : Option String
  pub delete : String
  pub pull : String
  pub image : String
  pub network : String
  pub container : String

-- A call of the provider.
pub data DockerCall : Type 0 where
  ensure_image : String → Bool → DockerCall
  inspect_container : String → DockerCall
  create_container : String → DockerCall
  find_network_by_name : String → DockerCall
  connect_network : String → String → DockerCall
  start_container : String → DockerCall
  wait_container : String → DockerCall
  get_container_logs : String → DockerCall
  stop_container : String → DockerCall
  remove_container : String → DockerCall

-- The errors of a run; the texts are those of Docker's errors.
pub data RunError : Type 0 where
  ensuring_image : String → RunError
  resolving_environment : String → RunError
  inspecting_container : String → RunError
  creating_container : String → RunError
  connecting_network : String → RunError
  starting_container : String → RunError
  waiting_for_container : String → RunError
  max_time_running : RunError
  unexpected : RunError
  non_zero_exit : ℤ → RunError

-- A result or the text of an error.
pub data Answer (A : Type 0) : Type 0 where
  answer : A → Answer A
  failure : String → Answer A

-- What the provider answers, and whether the two contexts have ended: that of the wait when it
-- returns with an error, and that of the run when the run is over.
pub record Docker : Type 0 where
  pub image_error : Option String
  pub environment : Answer (List String)
  pub inspected : Answer String
  pub created : Answer String
  pub networks : Answer (List String)
  pub connect_error : String → Option String
  pub start_error : Option String
  pub exit_code : Answer ℤ
  pub wait_ended : Bool
  pub run_ended : Bool

-- Calls made, and an error or nil.
pub record ContainerRun : Type 0 where
  pub calls : List DockerCall
  pub error : Option RunError

-- `strconv.ParseBool`, with its error taken as false, as the callers do.
unfoldable pub parse_bool : String → Bool
parse_bool s = s is "1" || s is "t" || s is "T" || s is "true" || s is "TRUE" || s is "True"

-- `Validate`
unfoldable pub validate : RunJob → Bool
validate j = not (j.image is "" && j.container is "")

abbrev pub name_of : RunJob → Option String → String
name_of j none = j.name
name_of j (some name) = name

-- The loop that connects the container to the networks, up to the first error.
unfoldable pub connect_networks : Docker → String → List String → ContainerRun
connect_networks d id [] = record { calls = []; error = none }
connect_networks d id (n ∷ networks) =
    let rest = connect_networks d id networks in
    elim (d.connect_error n) [
      | none ↦ record rest { calls = connect_network n id ∷ rest.calls }
      | some e ↦ record { calls = connect_network n id ∷ []; error = some (connecting_network e) }
    ]

-- The networks of the name, where an error means that there are none to connect to.
abbrev pub found_networks : Answer (List String) → List String
found_networks (answer networks) = networks
found_networks (failure e) = []

-- The end of `buildContainer`, on the ID of the new container.
unfoldable pub connect_created : Docker → RunJob → String → ContainerRun
unfolding connect_networks
connect_created d j id =
    if j.network is ""
    then record { calls = []; error = none }
    else (let r = connect_networks d id (found_networks d.networks) in
        record r { calls = find_network_by_name j.network ∷ r.calls })

-- A container's ID, the calls made for it and an error.
pub record Prepared : Type 0 where
  pub id : String
  pub ran : ContainerRun

abbrev pub after_create : Docker → RunJob → Answer String → Prepared
after_create d j (failure e) = record {
  id = "";
  ran = record { calls = []; error = some (creating_container e) };
}
after_create d j (answer id) = record { id = id; ran = connect_created d j id }

abbrev pub after_environment : Docker → RunJob → Answer (List String) → Prepared
after_environment d j (failure e) = record {
  id = "";
  ran = record { calls = []; error = some (resolving_environment e) };
}
after_environment d j (answer env) =
    let p = after_create d j d.created in
    record p {
      ran = record (p.ran) { calls = create_container (name_of j j.container_name) ∷ p.ran.calls };
    }

abbrev pub after_inspect : RunJob → Answer String → Prepared
after_inspect j (failure e) = record {
  id = "";
  ran = record {
    calls = inspect_container j.container ∷ [];
    error = some (inspecting_container e);
  };
}
after_inspect j (answer id) = record {
  id = id;
  ran = record { calls = inspect_container j.container ∷ []; error = none };
}

-- Whether a container is made for the job.
abbrev pub makes_container : RunJob → Bool
makes_container j = not (j.image is "") && j.container is ""

unfoldable pub create_or_inspect_container : Docker → RunJob → Prepared
unfolding connect_created
create_or_inspect_container d j =
    if makes_container j then after_environment d j d.environment else after_inspect j d.inspected

-- `watchContainer`, on the answer of the wait.
unfoldable pub watch_container : Bool → Answer ℤ → Option RunError
watch_container ended (failure e) =
    if ended then some max_time_running else some (waiting_for_container e)
watch_container ended (answer (pos zero)) = none
watch_container ended (answer (pos (suc n))) = some (non_zero_exit (pos (suc n)))
watch_container ended (answer (negsuc zero)) = some unexpected
watch_container ended (answer (negsuc (suc n))) = some (non_zero_exit (negsuc (suc n)))

abbrev pub is_unexpected : Option RunError → Bool
is_unexpected (some unexpected) = true
is_unexpected _ = false

abbrev pub after_start : Docker → String → Option String → ContainerRun
after_start d id (some e) = record {
  calls = start_container id ∷ [];
  error = some (starting_container e);
}
after_start d id none =
    let err = watch_container d.wait_ended d.exit_code in
    record {
      calls =
          start_container id
          ∷ wait_container id
          ∷ (if is_unexpected err then [] else get_container_logs id ∷ []);
      error = err;
    }

unfoldable pub start_and_wait : Docker → String → ContainerRun
unfolding watch_container
start_and_wait d id = after_start d id d.start_error

unfoldable pub delete_container : RunJob → String → List DockerCall
unfolding parse_bool
delete_container j id = if parse_bool j.delete then remove_container id ∷ [] else []

-- `cleanupAfterRun` and `cleanupOnDeadline`, whose errors are only logged.
unfoldable pub cleanup_after_run : Docker → RunJob → String → List DockerCall
unfolding delete_container
cleanup_after_run d j id =
    if d.run_ended then stop_container id ∷ delete_container j id else delete_container j id

-- The rest of `Run`, with its deferred cleanup.
abbrev pub after_prepare : Docker → RunJob → Prepared → ContainerRun
after_prepare d j p = elim (p.ran.error) [
  | some e ↦ p.ran
  | none ↦
      (let r = start_and_wait d p.id in
        let cleaned = if j.container is "" then cleanup_after_run d j p.id else [] in
        record { calls = p.ran.calls ++ (r.calls ++ cleaned); error = r.error })
]

abbrev pub after_image : Docker → RunJob → Option String → ContainerRun
after_image d j (some e) = record {
  calls = ensure_image j.image (parse_bool j.pull) ∷ [];
  error = some (ensuring_image e);
}
after_image d j none =
    let r = after_prepare d j (create_or_inspect_container d j) in
    record r { calls = ensure_image j.image (parse_bool j.pull) ∷ r.calls }

unfoldable pub run : Docker → RunJob → ContainerRun
unfolding parse_bool create_or_inspect_container start_and_wait cleanup_after_run
run d j =
    if makes_container j
    then after_image d j d.image_error
    else after_prepare d j (create_or_inspect_container d j)
