-- ===== src/Labels/Building.antt =====
-- cli/docker-labels.go, `buildFromDockerContainers`, and cli/config.go, `dockerContainersUpdate`: from the
-- labels of containers to jobs, and from these to the jobs that are scheduled. Webhooks, the merging
-- of global settings and deprecations are left out of the update.
use ofelia.Common.{String, Bool, true, Option, List, [], ◌∷◌, if◌then◌else◌}
use ofelia.Labels.{DockerContainerInfo, Jobs, Found}
use ofelia.Labels.Splitting.{split_containers_labels}
use ofelia.Sync.{JobSource, label, JobConfig, Call, Synced, sync_job_map}

pub data JobKind : Type 0 where
  exec_kind : JobKind
  local_kind : JobKind
  service_kind : JobKind
  run_kind : JobKind
  compose_kind : JobKind

-- The five maps of jobs of a configuration.
pub record JobMaps (J : Type 0) : Type 0 where
  pub exec : List (String × J)
  pub local : List (String × J)
  pub service : List (String × J)
  pub run : List (String × J)
  pub compose : List (String × J)

-- `decodeWithMetadata` and `weakDecodeConsistent`, with whether they succeed: what they could decode
-- is there in either case. `unmarshal` is that of JSON.
pub record Decoder (G J : Type 0) : Type 0 where
  pub unmarshal : String → Option (List String)
  pub decode_globals : List (String × String) → G → G × Bool
  pub decode_jobs : JobKind → Jobs → List (String × J) × Bool
  pub allow_host_jobs_from_labels : G → Bool

-- The jobs on the host are dropped, unless they are allowed.
abbrev pub without_host_jobs : Bool → Found → Found
without_host_jobs allowed f = if allowed then f else record f { local = []; compose = [] }

module _ {J : Type 0} where
  abbrev pub no_jobs : JobMaps J
  no_jobs = record { exec = []; local = []; service = []; run = []; compose = [] }

  unfoldable pub mark_job_source : JobConfig J → List (String × J) → List (String × J)
  mark_job_source m [] = []
  mark_job_source m ((n, j) ∷ jobs) = (n, m.set_job_source label j) ∷ mark_job_source m jobs

  abbrev pub mark_all : JobConfig J → JobMaps J → JobMaps J
  mark_all m maps = record {
    exec = mark_job_source m maps.exec;
    local = mark_job_source m maps.local;
    service = mark_job_source m maps.service;
    run = mark_job_source m maps.run;
    compose = mark_job_source m maps.compose;
  }

module _ {G J : Type 0} where
  unfoldable pub decode_into : Decoder G J → JobKind → Jobs → List (String × J) × Bool
  decode_into d kind [] = ([], true)
  decode_into d kind (job ∷ jobs) = d.decode_jobs kind (job ∷ jobs)

  -- The decoding of the five maps, which stops at the first that fails.
  unfoldable pub decode_all : Decoder G J → JobConfig J → Found → JobMaps J
  unfolding decode_into mark_job_source
  decode_all d m f =
      let (exec, exec_ok) = decode_into d exec_kind f.exec in
      let (local, local_ok) = decode_into d local_kind f.local in
      let (service, service_ok) = decode_into d service_kind f.service in
      let (run, run_ok) = decode_into d run_kind f.run in
      let (compose, compose_ok) = decode_into d compose_kind f.compose in
      if exec_ok
      then (if local_ok
          then (if service_ok
              then (if run_ok
                  then (let maps : JobMaps J = record {
                    exec = exec;
                    local = local;
                    service = service;
                    run = run;
                    compose = compose;
                  } in
                      if compose_ok then mark_all m maps else maps)
                  else record {
                    exec = exec;
                    local = local;
                    service = service;
                    run = run;
                    compose = [];
                  })
              else record { exec = exec; local = local; service = service; run = []; compose = [] })
          else record { exec = exec; local = local; service = []; run = []; compose = [] })
      else record { exec = exec; local = []; service = []; run = []; compose = [] }

  abbrev pub decode_settings : Decoder G J → List (String × String) → G → G × Bool
  decode_settings d [] g = (g, true)
  decode_settings d (s ∷ settings) g = d.decode_globals (s ∷ settings) g

  unfoldable pub build_from_docker_containers :
      Decoder G J → JobConfig J → G → List DockerContainerInfo → G × JobMaps J
  unfolding decode_all split_containers_labels
  build_from_docker_containers d m g cs =
      let f = split_containers_labels d.unmarshal cs in
      let (g', ok) = decode_settings d f.globals g in
      if ok
      then (g', decode_all d m (without_host_jobs (d.allow_host_jobs_from_labels g') f))
      else (g', no_jobs)

-- The jobs that are configured, and the calls of the scheduler so far.
pub record LiveJobs (J : Type 0) : Type 0 where
  pub maps : JobMaps J
  pub made : List (String × Call J)

module _ {J : Type 0} where
  -- `syncJobMap` for one type, with the function that prepares jobs of that type.
  abbrev pub sync_kind :
      JobConfig J
      → (String → J → J)
      → JobSource
      → List (String × J)
      → List (String × J)
      → List (String × Call J)
      → Synced J
  sync_kind m prep source parsed current calls =
      sync_job_map (record { methods = m; prep = prep; source = source }) parsed
        (record { current = current; calls = calls })

  -- The five syncs of `dockerContainersUpdate`.
  unfoldable pub sync_label_jobs :
      JobConfig J → (JobKind → String → J → J) → JobMaps J → LiveJobs J → LiveJobs J
  sync_label_jobs m preps parsed live =
      let e = sync_kind m (preps exec_kind) label parsed.exec live.maps.exec live.made in
      let r = sync_kind m (preps run_kind) label parsed.run live.maps.run e.calls in
      let l = sync_kind m (preps local_kind) label parsed.local live.maps.local r.calls in
      let s = sync_kind m (preps service_kind) label parsed.service live.maps.service l.calls in
      let c = sync_kind m (preps compose_kind) label parsed.compose live.maps.compose s.calls in
      record {
        maps = record {
          exec = e.current;
          local = l.current;
          service = s.current;
          run = r.current;
          compose = c.current;
        };
        made = c.calls;
      }

module _ {G J : Type 0} where
  -- The error of `buildFromDockerContainers` is dropped, and what it has built is taken.
  unfoldable pub docker_containers_update :
      Decoder G J
      → JobConfig J
      → (JobKind → String → J → J)
      → G
      → List DockerContainerInfo
      → LiveJobs J
      → LiveJobs J
  unfolding build_from_docker_containers sync_label_jobs
  docker_containers_update d m preps g cs live =
      sync_label_jobs m preps (build_from_docker_containers d m g cs).1 live
