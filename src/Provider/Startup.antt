-- ===== src/Provider/Startup.antt =====
-- The reconciliation of internal/provider/provider.go meets a pod that is still being created.
use hpktainer.Base.{ℕ, ◌<◌, ◌≡◌, ◌⊎◌, Bool, true, some, List, [], Bytes, codes, arith, length}
use hpktainer.Pod.{unset, pending, failed, Pod, ContainerStatus}
use hpktainer.Containers.{Disk}
use hpktainer.Status.{unsupported_fields, update_status_from_runtime}
use hpktainer.Status.Startup.{update-no_statuses}
use hpktainer.Provider.{
  is_pod_owned_by_node, load_pod_if_owned, is_terminal, same_phase, changed, reconcile_owned,
  reconcile_loaded, reconcile_pod,
}

-- A pod of this node that is saved before its container statuses are set up, with supported fields and
-- at least one container, is notified as failed by the next reconciliation, whatever the files say.
pub reconcile_pod-no_statuses :
    (same : List ContainerStatus → List ContainerStatus → Bool) (disk : Disk) (hpk : Bytes)
    (now : ℕ) (message own_node : Bytes) (pod : Pod)
    → is_pod_owned_by_node (some pod) own_node ≡ true
    → (pod.status.phase ≡ unset) ⊎ (pod.status.phase ≡ pending)
    → unsupported_fields pod ≡ []
    → pod.status.init_container_statuses ≡ []
    → pod.status.container_statuses ≡ []
    → 0 < length pod.containers
    → (q : Pod) × (reconcile_pod same disk hpk now message own_node (some pod) ≡ some q)
      × (q.status.phase ≡ failed)
      × (q.status.reason ≡ codes "PodFailure")
unfolding reconcile_pod reconcile_loaded reconcile_owned load_pod_if_owned changed same_phase
    is_terminal
reconcile_pod-no_statuses same disk hpk now message own_node pod o h u i e l =
    let (f, r) = update-no_statuses disk hpk now message pod h u i e l in
    (update_status_from_runtime disk hpk now message pod, ground (arith, o, h, f), f, r)
