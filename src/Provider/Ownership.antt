-- ===== src/Provider/Ownership.antt =====
-- Which pods the provider of internal/provider/provider.go touches.
use hpktainer.Identity.{Os}
use hpktainer.Base.{ℕ, ◌≡◌, ◌⊎◌, Bool, true, false, some, List, [], Bytes, arith}
use hpktainer.Pod.{Pod, ContainerStatus}
use hpktainer.Containers.{Disk}
use hpktainer.Processes.{LocalPod, loaded, Host}
use hpktainer.Status.{update_status_from_runtime}
use hpktainer.Provider.{
  is_pod_owned_by_node, is_foreign, is_terminal, changed, provider_delete_pod, skipped,
}

-- A pod that another node owns, by what the API server or by what the saved pod says, is not deleted:
-- no step is taken.
pub provider_delete_pod-foreign :
    (own_node : Bytes) (pod : Pod) (local : LocalPod) (disk : Disk) (os : Os) (host : Host)
    (hpk : Bytes) (now : ℕ)
    → (is_pod_owned_by_node (some pod) own_node ≡ false)
      ⊎ ((p : Pod) × (local ≡ loaded p) × (is_pod_owned_by_node (some p) own_node ≡ false))
    → provider_delete_pod own_node pod local disk os host hpk now ≡ (skipped, [])
unfolding provider_delete_pod is_foreign
provider_delete_pod-foreign own_node pod local disk os host hpk now h = ground (arith, h)

module _ (same : List ContainerStatus → List ContainerStatus → Bool) (disk : Disk) (hpk : Bytes)
    (now : ℕ) (message own_node : Bytes) where
  -- The pod is the update of a saved pod that this node owns and that was not in a final phase, and
  -- the update changed it.
  pub record Reconciled (p : Pod) : Type 0 where
    pub source : Pod
    pub owned : is_pod_owned_by_node (some source) own_node ≡ true
    pub active : is_terminal source.status.phase ≡ false
    pub updates : update_status_from_runtime disk hpk now message source ≡ p
    pub differs : changed same disk hpk now message own_node source p ≡ true
