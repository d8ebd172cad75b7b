-- ===== src/Volumes/Mounting.antt =====
-- mountVolumeSource of internal/compute/podhandler/volumes.go. SetUpAt of a projected volume is an
-- answer.
pub mod Provision
use hpktainer.Base.{ℕ, Bool, true, false, Option, none, some, [], ◌∷◌, Bytes, join_path}
use hpktainer.Pod.{Pod}
use hpktainer.Endpoint.{volume_dir}
use hpktainer.Volumes.{unsupported_volume, not_made, Result, make_dir, Done, ◌then◌, attempt, Retry}
use hpktainer.Volumes.Claims.{Claim, PersistentVolume, Cluster, persistent_volume_claim_source}
use hpktainer.Volumes.Payload.{
  ConfigMap, Secret, Writer, ObjectSource, set_up_config_map, set_up_secret,
}
use hpktainer.Volumes.Downward.{DownwardApi, FileSystem, downward_api_volume_source}
use hpktainer.Volumes.HostPath.{PathType, Files, mount_host_path}

-- corev1.VolumeSource. The name of a claim and the sources of a projection are left out.
pub record VolumeSource : Type 0 where
  pub empty_dir : Bool
  pub config_map : Option ObjectSource
  pub secret : Option ObjectSource
  pub downward_api : Option DownwardApi
  pub host_path : Option (Bytes × Option PathType)
  pub persistent_volume_claim : Bool
  pub projected : Bool

pub record Volume : Type 0 where
  pub name : Bytes
  pub source : VolumeSource

-- The answers to the calls, and retry.OnError for each kind of object.
pub record Node : Type 0 where
  pub files : Files
  pub file_system : FileSystem
  pub cluster : Cluster
  pub writer : Writer
  pub get_config_map : ℕ → Result ConfigMap
  pub get_secret : ℕ → Result Secret
  pub retry_config_map : Retry ConfigMap
  pub retry_secret : Retry Secret
  pub retry_claim : Retry Claim
  pub retry_volume : Retry PersistentVolume
  pub extract_field : Bytes → Option Bytes
  pub sets_up_projected : Bytes → Done

-- The cases of the switch.
pub data Selected : Type 0 where
  selected_empty_dir : Selected
  selected_config_map : ObjectSource → Selected
  selected_secret : ObjectSource → Selected
  selected_downward_api : DownwardApi → Selected
  selected_host_path : Bytes → Option PathType → Selected
  selected_claim : Selected
  selected_projected : Selected
  selected_none : Selected

abbrev pub or_next : Option Selected → Selected → Selected
or_next (some s) next = s
or_next none next = next

abbrev pub when : Bool → Selected → Option Selected
when true s = some s
when false s = none

abbrev pub case_of : {A : Type 0} → (A → Selected) → Option A → Option Selected
case_of f none = none
case_of f (some a) = some (f a)

select : VolumeSource → Selected
select v = or_next (when v.empty_dir selected_empty_dir) (
    or_next (case_of selected_config_map v.config_map) (
      or_next (case_of selected_secret v.secret) (
        or_next (case_of selected_downward_api v.downward_api) (
          or_next (case_of (λ h. selected_host_path h.0 h.1) v.host_path) (
            or_next (when v.persistent_volume_claim selected_claim)
              (or_next (when v.projected selected_projected) selected_none))))))

-- os.MkdirAll, and then the set-up.
in_new_dir : Node → Bytes → Done → Done
in_new_dir n dir set_up = attempt (n.file_system.makes_dir dir) (make_dir dir) not_made then set_up

mount_selected : Node → ℕ → Pod → Bytes → Selected → Done × Pod
unfolding in_new_dir
mount_selected n now pod target selected_empty_dir = (in_new_dir n target ([], none), pod)
mount_selected n now pod target (selected_config_map s) = (
  in_new_dir n target (set_up_config_map n.writer s n.retry_config_map n.get_config_map target),
  pod,
)
mount_selected n now pod target (selected_secret s) =
    (in_new_dir n target (set_up_secret n.writer s n.retry_secret n.get_secret target), pod)
mount_selected n now pod target (selected_downward_api s) =
    downward_api_volume_source n.file_system n.extract_field now n.cluster.message pod target s
mount_selected n now pod target (selected_host_path path t) =
    (mount_host_path n.files path t target, pod)
mount_selected n now pod target selected_claim =
    persistent_volume_claim_source n.cluster n.retry_claim n.retry_volume now pod target
mount_selected n now pod target selected_projected =
    (in_new_dir n target (n.sets_up_projected target), pod)
mount_selected n now pod target selected_none = (([], some unsupported_volume), pod)

-- mountVolumeSource; `dir` is the directory of the pod.
unfoldable pub mount_volume_source : Node → ℕ → Pod → Bytes → Volume → Done × Pod
unfolding mount_selected select
mount_volume_source n now pod dir v =
    mount_selected n now pod (join_path (volume_dir dir ∷ v.name ∷ [])) (select v.source)
