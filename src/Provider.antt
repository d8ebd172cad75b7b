-- ===== src/Provider.antt =====
-- internal/provider/provider.go: the virtual-kubelet provider over the saved pods. A saved pod is what
-- LoadPodFromFile reads from its path, or nothing if that fails; the JSON that carries it is outside.
pub mod Updates
pub mod Ownership
pub mod Startup
pub mod Examples
use hpktainer.Identity.{Os}
use hpktainer.Base.{
  ℕ, Bool, true, false, not, Option, none, some, List, [], ◌∷◌, ◌++◌, Bytes, codes, if◌then◌else◌,
  leb, beq, ◌||◌, lookup, parse_uint,
}
use hpktainer.Pod.{Phase, unset, pending, running, succeeded, failed, unknown, Pod, ContainerStatus}
use hpktainer.Containers.{Disk}
use hpktainer.Processes.{LocalPod, loaded, Host, DeleteStep, delete_pod}
use hpktainer.Status.{update_status_from_runtime}

-- The two tests for the empty text, and the comparison.
pub is_pod_owned_by_node : Option Pod → Bytes → Bool
is_pod_owned_by_node none own_node = true
is_pod_owned_by_node (some pod) own_node =
    beq own_node [] || (beq pod.node_name [] || beq pod.node_name own_node)

-- A pod, an error (`none`), or no pod since another node owns it (`some none`).
pub load_pod_if_owned : Option Pod → Bytes → Option (Option Pod)
unfolding is_pod_owned_by_node
load_pod_if_owned none own_node = none
load_pod_if_owned (some pod) own_node =
    if is_pod_owned_by_node (some pod) own_node then some (some pod) else some none

-- runtime.HasJobID.
pub has_job_id : Pod → Bool
has_job_id pod = elim (lookup (codes "pod.hpk/id") pod.annotations) [ none ↦ false | some v ↦ true ]

older : Option ℕ → Option ℕ → Bytes → Bytes → Bool
older (some local_version) (some new_version) local new = leb new_version local_version
older _ _ local new = beq local new

pub is_older : Pod → Pod → Bool
unfolding older
is_older local_pod pod =
    older (parse_uint local_pod.resource_version) (parse_uint pod.resource_version)
      local_pod.resource_version pod.resource_version

pub data UpdateResult : Type 0 where
  not_found discarded saved save_failed : UpdateResult

-- UpdatePod: the result, and what is saved behind it. `save_ok` says whether the save succeeds.
pub update_pod : Option Pod → Pod → Bool → UpdateResult × Option Pod
update_pod none pod save_ok = (not_found, none)
update_pod (some local_pod) pod save_ok =
    if is_older local_pod pod
    then (discarded, some local_pod)
    else if has_job_id pod
    then (if save_ok then (saved, some pod) else (save_failed, some local_pod))
    else (discarded, some local_pod)

-- A sequence of updates of one pod, each with the outcome of its save.
pub update_pods : Option Pod → List (Pod × Bool) → Option Pod
unfolding update_pod
update_pods saved_pod [] = saved_pod
update_pods saved_pod ((pod, save_ok) ∷ rest) =
    update_pods (update_pod saved_pod pod save_ok).1 rest

pub data DeleteResult : Type 0 where
  skipped object_not_found deleted : DeleteResult

pub is_foreign : LocalPod → Bytes → Bool
is_foreign (loaded pod) own_node = not (is_pod_owned_by_node (some pod) own_node)
is_foreign _ own_node = false

-- DeletePod of the provider, with the steps of that of the pod handler.
pub provider_delete_pod :
    Bytes → Pod → LocalPod → Disk → Os → Host → Bytes → ℕ → DeleteResult × List DeleteStep
unfolding is_foreign
provider_delete_pod own_node pod local disk os host hpk now =
    let (steps, done) = delete_pod local disk os host hpk pod.namespace pod.name now in
    if not (is_pod_owned_by_node (some pod) own_node)
    then (skipped, [])
    else if is_foreign local own_node
    then (skipped, [])
    else if done
    then (deleted, steps)
    else (object_not_found, steps)

keep_pod : Option (Option Pod) → List Pod → List Pod
keep_pod none pods = pods
keep_pod (some none) pods = pods
keep_pod (some (some pod)) pods = pod ∷ pods

-- GetPods over the pod directories that the walk visits.
pub get_pods : Bytes → List (Option Pod) → List Pod
unfolding keep_pod
get_pods own_node [] = []
get_pods own_node (p ∷ ps) = keep_pod (load_pod_if_owned p own_node) (get_pods own_node ps)

same_phase : Phase → Phase → Bool
same_phase unset unset = true
same_phase pending pending = true
same_phase running running = true
same_phase succeeded succeeded = true
same_phase failed failed = true
same_phase unknown unknown = true
same_phase _ _ = false

pub is_terminal : Phase → Bool
is_terminal succeeded = true
is_terminal failed = true
is_terminal _ = false

-- The periodic reconciliation. `same` is apiequality.Semantic.DeepEqual on container statuses and
-- `message` the unreachable message of the update.
module _ (same : List ContainerStatus → List ContainerStatus → Bool) (disk : Disk) (hpk : Bytes)
    (now : ℕ) (message own_node : Bytes) where
  pub changed : Pod → Pod → Bool
  unfolding same_phase
  changed old pod =
      not (same_phase old.status.phase pod.status.phase)
      || (not (same old.status.container_statuses pod.status.container_statuses)
          || not (same old.status.init_container_statuses pod.status.init_container_statuses))

  -- The pod that is saved and notified, if any.
  reconcile_owned : Pod → Option Pod
  reconcile_owned pod =
      let new = update_status_from_runtime disk hpk now message pod in
      if is_terminal pod.status.phase then none else if changed pod new then some new else none

  reconcile_loaded : Option (Option Pod) → Option Pod
  unfolding reconcile_owned
  reconcile_loaded none = none
  reconcile_loaded (some none) = none
  reconcile_loaded (some (some pod)) = reconcile_owned pod

  pub reconcile_pod : Option Pod → Option Pod
  unfolding reconcile_loaded
  reconcile_pod saved_pod = reconcile_loaded (load_pod_if_owned saved_pod own_node)

  -- saveAndNotifyPod: the pod is notified even if it could not be saved.
  pub save_and_notify_pod : Option Pod → Bool → Option Pod → Option Pod × List Pod
  save_and_notify_pod saved_pod save_ok none = (saved_pod, [])
  save_and_notify_pod saved_pod save_ok (some pod) =
      (if save_ok then some pod else saved_pod, pod ∷ [])

  -- reconcileNonTerminalPods over the pod directories, each with the outcome of a save: what is saved
  -- behind it, and the notified pods.
  pub reconcile_non_terminal_pods : List (Option Pod × Bool) → List (Option Pod) × List Pod
  unfolding save_and_notify_pod
  reconcile_non_terminal_pods [] = ([], [])
  reconcile_non_terminal_pods ((saved_pod, save_ok) ∷ rest) =
      let (pods, notified) = reconcile_non_terminal_pods rest in
      let (pod, more) = save_and_notify_pod saved_pod save_ok (reconcile_pod saved_pod) in
      (pod ∷ pods, more ++ notified)
