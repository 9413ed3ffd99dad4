-- ===== src/Labels/Sources.antt =====
-- Which containers the jobs of each type come from.
use ofelia.Common.{String, ◌≡◌, Option, List}
use ofelia.Labels.{DockerContainerInfo}
use ofelia.Labels.Order.{only}
use ofelia.Labels.Splitting.{is_service, split_containers_labels}
use ofelia.Labels.Services.{from_services, split-services}
use ofelia.Labels.Running.{from_running, is_running, split-running}

-- Local jobs, service jobs, global settings and webhooks are as if the service containers were the
-- only ones: what labels the other containers have does not matter. The jobs of all types but
-- `job-run` are as if the running containers were the only ones.
pub split-sources :
    (unmarshal : String → Option (List String)) (cs : List DockerContainerInfo)
    → (from_services (split_containers_labels unmarshal cs)
        ≡ from_services (split_containers_labels unmarshal (only is_service cs)))
      × (from_running (split_containers_labels unmarshal cs)
          ≡ from_running (split_containers_labels unmarshal (only is_running cs)))
split-sources unmarshal cs = (split-services unmarshal cs, split-running unmarshal cs)
