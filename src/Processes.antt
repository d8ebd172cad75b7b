-- ===== src/Processes.antt =====
-- internal/compute/podhandler/podhandler.go: the process ids in the control files of a pod, and the
-- deletion of a pod.
pub mod Ids
pub mod Secondary
pub mod Sources
pub mod Deletion
pub mod Examples
use hpktainer.Identity.{Os}
use hpktainer.Base.{
  ℕ, ◌+◌, ◌*◌, ◌%◌, ◌^◌, Bool, true, false, Option, none, some, List, [], ◌∷◌, ◌++◌, Bytes, codes,
  ℤ, pos, if◌then◌else◌, ltb, beq, any, ◌||◌, join_path, format_uint,
}
use hpktainer.Endpoint.{pod_path, pause_job_id_path, id_path, control_file_dir}
use hpktainer.JobId.{Parsed, parsed, refused, parse_process_job_id}
use hpktainer.Pod.{Pod}
use hpktainer.Containers.{Disk, read_string_from_file}
use hpktainer.Cancel.{Effect, kill_pod_processes_with_timeout}

plain_pid : Parsed → Option Bytes
plain_pid (refused e) = none
plain_pid (parsed pid start_time) =
    some (
      if ltb 0 start_time
      then format_uint pid ++ b':' ∷ format_uint start_time
      else format_uint pid)

pub parse_process_pid : Bytes → Option Bytes
unfolding plain_pid
parse_process_pid raw = plain_pid (parse_process_job_id raw)

-- The pid in a control file, if the file holds a valid one.
pub pid_in_file : Disk → Bytes → Option Bytes
pid_in_file disk path = elim (read_string_from_file (disk path)) [
  | none ↦ none
  | some raw ↦ parse_process_pid raw
]

-- The first valid pid of a list of containers.
pub first_pid : Disk → Bytes → List Bytes → Option Bytes
first_pid disk pod_dir [] = none
first_pid disk pod_dir (name ∷ names) = elim (pid_in_file disk (id_path pod_dir name)) [
  | some pid ↦ some pid
  | none ↦ first_pid disk pod_dir names
]

pub or_else : Option Bytes → Option Bytes → Option Bytes
or_else (some pid) other = some pid
or_else none other = other

pub wrapper_pid_path : Pod → Bytes
wrapper_pid_path pod =
    join_path (codes "/tmp" ∷ (pod.namespace ++ b'_' ∷ pod.name) ∷ codes ".pid" ∷ [])

-- resolveProcessPIDFromControlFiles; `none` is ErrNoProcessIDInControlFiles.
pub resolve_process_pid_from_control_files : Disk → Pod → Bytes → Option Bytes
unfolding or_else
resolve_process_pid_from_control_files disk pod pod_dir =
    or_else (pid_in_file disk (pause_job_id_path pod_dir)) (
      or_else (first_pid disk pod_dir pod.containers) (
        or_else (first_pid disk pod_dir pod.init_containers)
          (pid_in_file disk (wrapper_pid_path pod))))

note : Option Bytes → List Bytes × List Bytes → List Bytes × List Bytes
note none (secondary, seen) = (secondary, seen)
note (some pid) (secondary, seen) =
    if any (beq pid) seen || beq pid []
    then (secondary, seen)
    else (secondary ++ pid ∷ [], pid ∷ seen)

-- The closure `collect`, over the pids collected and those seen.
pub collect : Disk → Bytes → List Bytes → List Bytes × List Bytes → List Bytes × List Bytes
unfolding note
collect disk pod_dir [] state = state
collect disk pod_dir (name ∷ names) state =
    collect disk pod_dir names (note (pid_in_file disk (id_path pod_dir name)) state)

pub resolve_secondary_container_pids : Disk → Pod → Bytes → Bytes → List Bytes
resolve_secondary_container_pids disk pod pod_dir primary =
    let seen = if beq primary [] then [] else primary ∷ [] in
    (collect disk pod_dir pod.init_containers (collect disk pod_dir pod.containers ([], seen))).0

-- What loading the local pod gives: fs.ErrNotExist, another error, or the pod.
pub data LocalPod : Type 0 where
  not_exist load_failed : LocalPod
  loaded : Pod → LocalPod

-- What os.RemoveAll of the pod directory returns: nil, a permission error, or another error.
pub data RemoveResult : Type 0 where
  removed permission_denied remove_failed : RemoveResult

-- The answers of the host: to the removal, the removal of the contents under fakeroot, the removal
-- behind it, and whether the directory of the namespace is then empty.
pub record Host : Type 0 where
  pub remove_all : RemoveResult
  pub fakeroot_exec : Bool
  pub remove_again : Bool
  pub namespace_is_empty : Bool

pub data DeleteStep : Type 0 where
  kill : Effect → DeleteStep
  unwatch : Bytes → DeleteStep
  remove_directory : Bytes → DeleteStep
  fakeroot_delete : Bytes → DeleteStep
  remove_empty : Bytes → DeleteStep

abbrev second : ℕ
second = 1000000000

-- The grace period of the pod, or 30 seconds.
pub grace_period : Option ℤ → ℕ
grace_period (some (pos n)) = n * second
grace_period _ = 30 * second

-- The five seconds above it. A Duration has 64 bits; a negative one (a grace period of about 292
-- years) is outside the model.
pub kill_timeout : Pod → ℕ
unfolding grace_period
kill_timeout pod = (grace_period pod.termination_grace_period_seconds + 5 * second) % 2 ^ 64

kills : List Effect → List DeleteStep
kills [] = []
kills (e ∷ es) = kill e ∷ kills es

-- The signals; the result of the kill is only logged.
pub kill_steps : Option Bytes → Disk → Os → Pod → Bytes → ℕ → List Effect
kill_steps none disk os pod pod_dir now = []
kill_steps (some pid) disk os pod pod_dir now =
    (kill_pod_processes_with_timeout os pid (resolve_secondary_container_pids disk pod pod_dir pid)
      (kill_timeout pod) now).0

workdir : Bytes → Bytes → Bytes
workdir namespace name = join_path (codes "/tmp" ∷ (namespace ++ b'_' ∷ name) ∷ [])

-- What follows a removal that succeeded.
clean_up : Host → Bytes → Bytes → Bytes → List DeleteStep
unfolding workdir
clean_up host hpk namespace name =
    remove_directory (workdir namespace name)
    ∷ (if host.namespace_is_empty then remove_empty (join_path (hpk ∷ namespace ∷ [])) ∷ [] else [])

remove_steps : RemoveResult → Host → Bytes → Bytes → Bytes → List DeleteStep × Bool
unfolding clean_up
remove_steps removed host hpk namespace name = (clean_up host hpk namespace name, true)
remove_steps permission_denied host hpk namespace name =
    let pod_dir = pod_path hpk namespace name in
    if host.fakeroot_exec
    then (if host.remove_again
        then (
          fakeroot_delete pod_dir ∷ remove_directory pod_dir ∷ clean_up host hpk namespace name,
          true,
        )
        else (fakeroot_delete pod_dir ∷ remove_directory pod_dir ∷ [], false))
    else (fakeroot_delete pod_dir ∷ [], false)
remove_steps remove_failed host hpk namespace name = ([], false)

-- DeletePod of podhandler.go.
pub delete_pod : LocalPod → Disk → Os → Host → Bytes → Bytes → Bytes → ℕ → List DeleteStep × Bool
unfolding remove_steps kills
delete_pod not_exist disk os host hpk namespace name now = ([], true)
delete_pod load_failed disk os host hpk namespace name now = ([], false)
delete_pod (loaded pod) disk os host hpk namespace name now =
    let pod_dir = pod_path hpk namespace name in
    let pid = resolve_process_pid_from_control_files disk pod pod_dir in
    let (steps, done) = remove_steps host.remove_all host hpk namespace name in
    (
      kills (kill_steps pid disk os pod pod_dir now)
          ++ unwatch (control_file_dir pod_dir) ∷ remove_directory pod_dir ∷ steps,
      done,
    )
