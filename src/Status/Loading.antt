-- ===== src/Status/Loading.antt =====
-- What UpdateStatusFromRuntime of internal/compute/podhandler/podStatus.go loads before it decides.
use hpktainer.Endpoint.{pod_path}
use hpktainer.Base.{ℕ, ◌≡◌, refl, Bytes, arith, map}
use hpktainer.Pod.{Pod, ContainerStatus}
use hpktainer.Containers.{Disk, handle_status, sync_container_statuses}
use hpktainer.Status.{load_ip}

-- Loading the address leaves the rest of the pod.
module _ (disk : Disk) (hpk : Bytes) (pod : Pod) where
  namespace-load_ip : (load_ip disk hpk pod).namespace ≡ pod.namespace
  unfolding load_ip
  namespace-load_ip = ground arith

  name-load_ip : (load_ip disk hpk pod).name ≡ pod.name
  unfolding load_ip
  name-load_ip = ground arith

  statuses-load_ip :
      (load_ip disk hpk pod).status.container_statuses ≡ pod.status.container_statuses
  unfolding load_ip
  statuses-load_ip = ground arith

  init-load_ip :
      (load_ip disk hpk pod).status.init_container_statuses ≡ pod.status.init_container_statuses
  unfolding load_ip
  init-load_ip = ground arith

-- What loading the address and the container statuses leaves of a pod.
module _ (disk : Disk) (hpk : Bytes) (now : ℕ) (pod : Pod) where
  unfoldable pub loaded : Pod
  loaded = sync_container_statuses disk hpk now (load_ip disk hpk pod)

  pub phase_loaded : loaded.status.phase ≡ pod.status.phase
  unfolding loaded load_ip sync_container_statuses
  phase_loaded = ground arith

  pub containers_loaded : loaded.containers ≡ pod.containers
  unfolding loaded load_ip sync_container_statuses
  containers_loaded = ground arith

module _ (disk : Disk) (hpk : Bytes) (now : ℕ) (pod : Pod) where
  abbrev pub handled : ContainerStatus → ContainerStatus
  handled = handle_status disk (pod_path hpk pod.namespace pod.name) now

  pub statuses_loaded :
      (loaded disk hpk now pod).status.container_statuses
      ≡ map handled pod.status.container_statuses
  unfolding loaded sync_container_statuses
  statuses_loaded =
      rw (namespace-load_ip disk hpk pod)
        (rw (name-load_ip disk hpk pod) (rw (statuses-load_ip disk hpk pod) refl))

  pub init_statuses_loaded :
      (loaded disk hpk now pod).status.init_container_statuses
      ≡ map handled pod.status.init_container_statuses
  unfolding loaded sync_container_statuses
  init_statuses_loaded =
      rw (namespace-load_ip disk hpk pod)
        (rw (name-load_ip disk hpk pod) (rw (init-load_ip disk hpk pod) refl))
